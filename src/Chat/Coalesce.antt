-- ===== src/Chat/Coalesce.antt =====
-- What coalesceAlternatingRoles of packages/engine/src/schema.ts makes of a conversation.
use modelforge_ai.Base.{
  ℕ, arith, ◌&&◌, ◌≡◌, refl, sym, ap, ◌∙◌, subst, inl, inr, Bool, true, false, List, [], ◌∷◌, ◌++◌,
  Bool-cases,
}
use mathlib.Core.List.{append_assoc, append-nil}
use modelforge_ai.Base.Units.{
  Units, is_empty, is_empty-eq, trim, visible, visible-append, visible-trim, is_empty-trim,
}
use modelforge_ai.Base.Preds.{All}
use modelforge_ai.Chat.Messages.{
  Role, same_role, is_coalescable, Turn, merges, merged, push_turn, coalesce_onto,
  coalesce_alternating_roles,
}

-- A user speaks after a user, or an assistant after an assistant.
abbrev pub repeats : Role → Role → Bool
repeats Role.user Role.user = true
repeats Role.assistant Role.assistant = true
repeats _ _ = false

-- No two turns of the user, and none of the assistant, follow each other.
abbrev pub Alternates : List Turn → Type 0
Alternates [] = Unit
Alternates (t ∷ []) = Unit
Alternates (t ∷ u ∷ us) = (repeats t.role u.role ≡ false) × Alternates (u ∷ us)

repeats-merges : (a b : Role) → repeats a b ≡ (same_role a b && is_coalescable b)
repeats-merges a b = ground arith

is_empty-append : (xs ys : Units) → is_empty xs ≡ false → is_empty (xs ++ ys) ≡ false
is_empty-append [] ys h = cc
is_empty-append (c ∷ cs) ys h = refl

module _ (is_space : ℕ → Bool) where
  abbrev pub IsSpoken : Turn → Type 0
  IsSpoken t = is_empty (visible is_space t.content) ≡ false

  -- What is visible of the turns, one after the other.
  abbrev pub transcript : List Turn → Units
  transcript [] = []
  transcript (t ∷ ts) = visible is_space t.content ++ transcript ts

  -- Every turn says something, and the turns of the user and of the assistant alternate.
  abbrev pub IsWellFormed : List Turn → Type 0
  IsWellFormed ts = Alternates ts × All IsSpoken ts

  module _ (line_break : is_space 10 ≡ true) where
    visible-merged :
        (t m : Turn)
        → visible is_space (merged is_space t m).content
          ≡ visible is_space t.content ++ visible is_space m.content
    visible-merged t m =
        visible-trim is_space _
        ∙ visible-append is_space (t.content ++ 10 ∷ 10 ∷ []) m.content
        ∙ ap (λ v. v ++ visible is_space m.content)
            (visible-append is_space t.content (10 ∷ 10 ∷ []) ∙ rw line_break (append-nil _))

    transcript-push_turn :
        (ts : List Turn) (m : Turn)
        → transcript (push_turn is_space ts m) ≡ transcript ts ++ visible is_space m.content
    unfolding push_turn
    transcript-push_turn [] m = append-nil _
    transcript-push_turn (t ∷ []) m = elim (Bool-cases (merges t m)) [
      | inl same ↦ rw same (
          append-nil _
          ∙ visible-merged t m
          ∙ ap (λ v. v ++ visible is_space m.content)
              (sym (append-nil (visible is_space t.content))))
      | inr other ↦ rw (other, append-nil, append-nil) refl
    ]
    transcript-push_turn (t ∷ u ∷ us) m =
        ap (λ v. visible is_space t.content ++ v) (transcript-push_turn (u ∷ us) m)
        ∙ sym (
            append_assoc (visible is_space t.content) (transcript (u ∷ us))
              (visible is_space m.content))

    transcript-coalesce_onto :
        (output ms : List Turn)
        → transcript (coalesce_onto is_space output ms) ≡ transcript output ++ transcript ms
    unfolding coalesce_onto
    transcript-coalesce_onto output [] = sym (append-nil _)
    transcript-coalesce_onto output (m ∷ ms) =
        elim (Bool-cases (is_empty (trim is_space m.content))) [
          | inl blank ↦
              let nothing : visible is_space m.content ≡ [] =
                is_empty-eq _ (sym (is_empty-trim is_space m.content) ∙ blank) in
              rw (blank, nothing) (transcript-coalesce_onto output ms)
          | inr spoken ↦ rw spoken (
              transcript-coalesce_onto (push_turn is_space output m) ms
              ∙ ap (λ v. v ++ transcript ms) (transcript-push_turn output m)
              ∙ append_assoc (transcript output) (visible is_space m.content) (transcript ms))
        ]

    -- Where the end of a line is white space, coalescing loses, adds and moves nothing that is visible.
    pub transcript-coalesce_alternating_roles :
        (ms : List Turn) → transcript (coalesce_alternating_roles is_space ms) ≡ transcript ms
    unfolding coalesce_alternating_roles
    transcript-coalesce_alternating_roles ms = transcript-coalesce_onto [] ms

    merged-IsSpoken : (t m : Turn) → IsSpoken t → IsSpoken (merged is_space t m)
    merged-IsSpoken t m h =
        rw (visible-merged t m) (is_empty-append (visible is_space t.content) _ h)

    push_turn-IsSpoken :
        (ts : List Turn) (m : Turn)
        → All IsSpoken ts
        → IsSpoken m
        → All IsSpoken (push_turn is_space ts m)
    unfolding push_turn
    push_turn-IsSpoken [] m all spoken = (spoken, tt)
    push_turn-IsSpoken (t ∷ []) m (first, all) spoken = elim (Bool-cases (merges t m)) [
      | inl same ↦ rw same (merged-IsSpoken t m first, tt)
      | inr other ↦ rw other (first, (spoken, tt))
    ]
    push_turn-IsSpoken (t ∷ u ∷ us) m (first, all) spoken =
        (first, push_turn-IsSpoken (u ∷ us) m all spoken)

    push_turn-Alternates :
        (ts : List Turn) (m : Turn) → Alternates ts → Alternates (push_turn is_space ts m)
    unfolding push_turn
    push_turn-Alternates [] m h = tt
    push_turn-Alternates (t ∷ []) m h = elim (Bool-cases (merges t m)) [
      | inl same ↦ rw same tt
      | inr other ↦ rw other (repeats-merges t.role m.role ∙ other, tt)
    ]
    push_turn-Alternates (t ∷ u ∷ []) m (apart, h) = elim (Bool-cases (merges u m)) [
      | inl same ↦ rw same (apart, tt)
      | inr other ↦ rw other (apart, (repeats-merges u.role m.role ∙ other, tt))
    ]
    push_turn-Alternates (t ∷ u ∷ v ∷ vs) m (apart, h) =
        (apart, push_turn-Alternates (u ∷ v ∷ vs) m h)

    coalesce_onto-IsWellFormed :
        (output ms : List Turn)
        → IsWellFormed output
        → IsWellFormed (coalesce_onto is_space output ms)
    unfolding coalesce_onto
    coalesce_onto-IsWellFormed output [] h = h
    coalesce_onto-IsWellFormed output (m ∷ ms) h =
        elim (Bool-cases (is_empty (trim is_space m.content))) [
          | inl blank ↦ rw blank (coalesce_onto-IsWellFormed output ms h)
          | inr left ↦
              let spoken : IsSpoken m = sym (is_empty-trim is_space m.content) ∙ left in
              rw left (
                coalesce_onto-IsWellFormed (push_turn is_space output m) ms
                  (push_turn-Alternates output m (h.0), push_turn-IsSpoken output m (h.1) spoken))
        ]

    -- Where the end of a line is white space: in what coalescing gives, every turn says something, and no
    -- two turns of the user, and none of the assistant, follow each other.
    pub coalesce_alternating_roles-IsWellFormed :
        (ms : List Turn) → IsWellFormed (coalesce_alternating_roles is_space ms)
    unfolding coalesce_alternating_roles
    coalesce_alternating_roles-IsWellFormed ms = coalesce_onto-IsWellFormed [] ms (tt, tt)

  push_turn_kept :
      (ts : List Turn) (m : Turn) (rest : List Turn)
      → Alternates (ts ++ m ∷ rest)
      → push_turn is_space ts m ≡ ts ++ m ∷ []
  unfolding push_turn
  push_turn_kept [] m rest h = refl
  push_turn_kept (t ∷ []) m rest (apart, h) = rw (sym (repeats-merges t.role m.role) ∙ apart) refl
  push_turn_kept (t ∷ u ∷ us) m rest (apart, h) =
      ap (λ ts. t ∷ ts) (push_turn_kept (u ∷ us) m rest h)

  coalesce_onto_kept :
      (output ms : List Turn)
      → Alternates (output ++ ms)
      → All IsSpoken ms
      → coalesce_onto is_space output ms ≡ output ++ ms
  unfolding coalesce_onto
  coalesce_onto_kept output [] h all = sym (append-nil output)
  coalesce_onto_kept output (m ∷ ms) h (spoken, all) =
      let next : coalesce_onto is_space (output ++ m ∷ []) ms ≡ (output ++ m ∷ []) ++ ms =
        coalesce_onto_kept (output ++ m ∷ []) ms
          (subst Alternates (sym (append_assoc output (m ∷ []) ms)) h) all in
      rw (is_empty-trim is_space m.content, spoken, push_turn_kept output m ms h)
        (next ∙ append_assoc output (m ∷ []) ms)

  -- A conversation that is well formed stays as it is.
  pub coalesce_alternating_roles_kept :
      (ms : List Turn) → IsWellFormed ms → coalesce_alternating_roles is_space ms ≡ ms
  unfolding coalesce_alternating_roles
  coalesce_alternating_roles_kept ms h = coalesce_onto_kept [] ms (h.0) (h.1)
