-- ===== src/Signing/Canonical.antt =====
-- packages/platform/src/canonical.ts. A value is the tree that `serialize` walks; an object that stands
-- on the stack already is `enclosing`. JSON.stringify of a text and of a finite number, the order of keys
-- that Array.prototype.sort uses, and SHA-256 are parameters.
use Prim.Native.String.{String, ◌++◌}
use modelforge_ai.Base.{Bool, Option, none, some, List, [], ◌∷◌, if◌then◌else◌}
use modelforge_ai.Base.Int.{ℤ}
use modelforge_ai.Base.Result.{Result, ok, err, ◌>>=◌}

mutual
  pub data Value : Type 0 where
    null : Value
    boolean : Bool → Value
    text : String → Value
    number : ℤ → Value
    -- NaN and the infinities, a bigint, and undefined, a function or a symbol.
    not_finite bigint undefined : Value
    -- An object with a method `toJSON`, by what the method gives.
    with_to_json : Value → Value
    enclosing : Value
    array : Values → Value
    object : Fields → Value

  pub data Values : Type 0 where
    nil : Values
    item : Value → Values → Values

  pub data Fields : Type 0 where
    no_fields : Fields
    field : String → Value → Fields → Fields

pub data CanonicalError : Type 0 where
  not_finite_number bigint_value circular root_not_serializable : CanonicalError

-- `?? "null"`
abbrev pub or_null : Option String → String
or_null none = "null"
or_null (some s) = s

-- [..].join(",")
unfoldable pub join : List String → String
join [] = ""
join (s ∷ []) = s
join (s ∷ t ∷ ts) = s ++ "," ++ join (t ∷ ts)

-- A field that is to be written: its key, and what its value gives or throws.
abbrev pub Entry : Type 0
Entry = String × Result CanonicalError (Option String)

module _ (quote : String → String) (print : ℤ → String) (before : String → String → Bool) where
  -- sort(), by the keys
  unfoldable pub insert_entry : Entry → List Entry → List Entry
  insert_entry e [] = e ∷ []
  insert_entry e (x ∷ xs) = if before e.0 x.0 then e ∷ x ∷ xs else x ∷ insert_entry e xs

  unfoldable pub sort_entries : List Entry → List Entry
  sort_entries [] = []
  sort_entries (e ∷ es) = insert_entry e (sort_entries es)

  -- `flatMap`: a field that is undefined is left out, the first that throws ends the walk.
  unfoldable pub entry_texts : List Entry → Result CanonicalError (List String)
  entry_texts [] = ok []
  entry_texts ((k, r) ∷ es) = r >>= λ s.
      entry_texts es >>= λ rest. ok (elim s [ none ↦ rest | some t ↦ (quote k ++ ":" ++ t) ∷ rest ])

  unfoldable pub braces :
      Result CanonicalError (List String) → Result CanonicalError (Option String)
  braces r = r >>= λ parts. ok (some ("{" ++ join parts ++ "}"))

  unfoldable mutual
    pub serialize : Value → Result CanonicalError (Option String)
    serialize null = ok (some "null")
    serialize (boolean b) = ok (some (if b then "true" else "false"))
    serialize (text s) = ok (some (quote s))
    serialize (number n) = ok (some (print n))
    serialize not_finite = err not_finite_number
    serialize bigint = err bigint_value
    serialize undefined = ok none
    serialize (with_to_json v) = serialize v
    serialize enclosing = err circular
    serialize (array vs) = serialize_items vs >>= λ parts. ok (some ("[" ++ join parts ++ "]"))
    serialize (object fs) = braces (entry_texts (sort_entries (serialize_fields fs)))

    pub serialize_items : Values → Result CanonicalError (List String)
    serialize_items nil = ok []
    serialize_items (item v vs) =
        serialize v >>= λ s. serialize_items vs >>= λ rest. ok (or_null s ∷ rest)

    pub serialize_fields : Fields → List Entry
    serialize_fields no_fields = []
    serialize_fields (field k v fs) = (k, serialize v) ∷ serialize_fields fs

  unfoldable pub canonical_stringify : Value → Result CanonicalError String
  canonical_stringify v =
      serialize v >>= λ s. elim s [ none ↦ err root_not_serializable | some t ↦ ok t ]

  unfoldable pub hash_canonical_payload : (String → String) → Value → Result CanonicalError String
  hash_canonical_payload sha256_hex v = canonical_stringify v >>= λ s. ok (sha256_hex s)
