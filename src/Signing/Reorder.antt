-- ===== src/Signing/Reorder.antt =====
-- Canonical JSON (packages/platform/src/canonical.ts) does not depend on the order of an object's keys.
use Prim.Native.String.{String}
use modelforge_ai.Base.{◌≡◌, ◌≢◌, refl, ap, ◌∙◌, ◌⊎◌, arith, Bool, true, false, List, [], ◌∷◌}
use modelforge_ai.Base.Int.{ℤ}
use modelforge_ai.Signing.Canonical.{
  Value, object, Fields, field, Entry, insert_entry, sort_entries, serialize, serialize_fields,
  canonical_stringify,
}

-- A strict order of the keys, in which two keys that differ are comparable.
pub record IsOrder (before : String → String → Bool) : Type 0 where
  pub asym : (a b : String) → before a b ≡ true → before b a ≡ false
  pub trans : (a b c : String) → before a b ≡ true → before b c ≡ true → before a c ≡ true
  pub total : (a b : String) → a ≢ b → (before a b ≡ true) ⊎ (before b a ≡ true)

-- The same fields in another order: neighbours with different keys change places.
pub data Reordered : Fields → Fields → Type 0 where
  same : {fs : Fields} → Reordered fs fs
  swap :
      {k j : String} {v w : Value} {fs : Fields}
      → k ≢ j
      → Reordered (field k v (field j w fs)) (field j w (field k v fs))
  keep :
      {k : String} {v : Value} {fs gs : Fields}
      → Reordered fs gs
      → Reordered (field k v fs) (field k v gs)
  then_reordered : {fs gs hs : Fields} → Reordered fs gs → Reordered gs hs → Reordered fs hs

module _ (quote : String → String) (print : ℤ → String) (before : String → String → Bool)
    (order : IsOrder before) where
  insert_entry_comm :
      (a b : Entry) (xs : List Entry)
      → a.0 ≢ b.0
      → insert_entry quote print before a (insert_entry quote print before b xs)
        ≡ insert_entry quote print before b (insert_entry quote print before a xs)
  unfolding insert_entry
  insert_entry_comm a b [] differ =
      ground (arith, order.total a.0 b.0 differ, order.asym a.0 b.0, order.asym b.0 a.0)
  insert_entry_comm a b (x ∷ xs) differ = ground (
    arith,
    order.total a.0 b.0 differ,
    order.asym a.0 b.0,
    order.asym b.0 a.0,
    order.trans a.0 b.0 x.0,
    order.trans b.0 a.0 x.0,
    insert_entry_comm a b xs differ,
  )

  sort_entries-Reordered :
      (fs gs : Fields)
      → Reordered fs gs
      → sort_entries quote print before (serialize_fields quote print before fs)
        ≡ sort_entries quote print before (serialize_fields quote print before gs)
  unfolding sort_entries serialize
  sort_entries-Reordered fs _ same = refl
  sort_entries-Reordered (field k v (field j w hs)) _ (swap differ) =
      insert_entry_comm (k, serialize quote print before v) (j, serialize quote print before w)
        (sort_entries quote print before (serialize_fields quote print before hs)) differ
  sort_entries-Reordered (field k v hs) (field _ _ is) (keep r) =
      ap (insert_entry quote print before (k, serialize quote print before v))
        (sort_entries-Reordered hs is r)
  sort_entries-Reordered fs hs (then_reordered {gs = gs} r q) =
      sort_entries-Reordered fs gs r ∙ sort_entries-Reordered gs hs q

  -- Two objects whose fields are the same but for their order have one canonical text, or fail with
  -- the same error.
  pub canonical_stringify-Reordered :
      (fs gs : Fields)
      → Reordered fs gs
      → canonical_stringify quote print before (object fs)
        ≡ canonical_stringify quote print before (object gs)
  unfolding canonical_stringify serialize
  canonical_stringify-Reordered fs gs r = rw (sort_entries-Reordered fs gs r) refl
