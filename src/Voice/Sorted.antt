-- ===== src/Voice/Sorted.antt =====
-- The sort of the turns of a diarization by their starts (apps/gateway/src/lib/voice/diarize.ts).
use modelforge_ai.Base.{ℕ, ◌≤◌, ◌≡◌, refl, ap, ◌∙◌, inl, inr, List, [], ◌∷◌, arith, leb, Bool-cases}
use modelforge_ai.Base.Text.{text_eq}
use modelforge_ai.Base.Preds.{In}
use modelforge_ai.Voice.Turns.{DiarizationTurn, insert_turn, sort_turns}

-- The turns begin one after the other, none before b.
abbrev pub Ascending : ℕ → List DiarizationTurn → Type 0
Ascending b [] = Unit
Ascending b (t ∷ ts) = (b ≤ t.start) × Ascending t.start ts

pub Ascending-le : (b c : ℕ) (ts : List DiarizationTurn) → b ≤ c → Ascending c ts → Ascending b ts
Ascending-le b c [] h s = tt
Ascending-le b c (t ∷ ts) h (k, s) = (omega arith, s)

insert_turn-Ascending :
    (b : ℕ) (t : DiarizationTurn) (ts : List DiarizationTurn)
    → b ≤ t.start
    → Ascending b ts
    → Ascending b (insert_turn t ts)
unfolding insert_turn
insert_turn-Ascending b t [] h s = (h, tt)
insert_turn-Ascending b t (u ∷ us) h (k, s) = elim (Bool-cases (leb t.start u.start)) [
  | inl le ↦ rw le (h, (ground arith, s))
  | inr gt ↦ rw gt (k, insert_turn-Ascending u.start t us (ground arith) s)
]

pub sort_turns-Ascending : (ts : List DiarizationTurn) → Ascending 0 (sort_turns ts)
unfolding sort_turns
sort_turns-Ascending [] = tt
sort_turns-Ascending (t ∷ ts) =
    insert_turn-Ascending 0 t (sort_turns ts) (omega arith) (sort_turns-Ascending ts)

pub sort_turns-eq : (b : ℕ) (ts : List DiarizationTurn) → Ascending b ts → sort_turns ts ≡ ts
unfolding sort_turns insert_turn
sort_turns-eq b [] s = refl
sort_turns-eq b (t ∷ []) s = refl
sort_turns-eq b (t ∷ u ∷ us) (k, (l, s)) =
    ap (insert_turn t) (sort_turns-eq t.start (u ∷ us) (l, s)) ∙ ground arith

In-insert_turn :
    (x t : DiarizationTurn) (ts : List DiarizationTurn) → In x (t ∷ ts) → In x (insert_turn t ts)
unfolding insert_turn
In-insert_turn x t [] m = m
In-insert_turn x t (u ∷ us) m = elim (Bool-cases (leb t.start u.start)) [
  | inl le ↦ rw le m
  | inr gt ↦ rw gt (elim m [
    | inl e ↦ inr (In-insert_turn x t us (inl e))
    | inr (inl e) ↦ inl e
    | inr (inr n) ↦ inr (In-insert_turn x t us (inr n))
  ])
]

pub In-sort_turns :
    (x : DiarizationTurn) (ts : List DiarizationTurn) → In x ts → In x (sort_turns ts)
unfolding sort_turns
In-sort_turns x [] m = m
In-sort_turns x (t ∷ ts) (inl e) = In-insert_turn x t (sort_turns ts) (inl e)
In-sort_turns x (t ∷ ts) (inr m) = In-insert_turn x t (sort_turns ts) (inr (In-sort_turns x ts m))

In-insert_turn-of :
    (x t : DiarizationTurn) (ts : List DiarizationTurn) → In x (insert_turn t ts) → In x (t ∷ ts)
unfolding insert_turn
In-insert_turn-of x t [] m = m
In-insert_turn-of x t (u ∷ us) m = elim (Bool-cases (leb t.start u.start)) [
  | inl le ↦ rw le at m
  | inr gt ↦ elim (rw gt at m) [
    | inl e ↦ inr (inl e)
    | inr n ↦ elim (In-insert_turn-of x t us n) [ inl e ↦ inl e | inr o ↦ inr (inr o) ]
  ]
]

pub In-sort_turns-of :
    (x : DiarizationTurn) (ts : List DiarizationTurn) → In x (sort_turns ts) → In x ts
unfolding sort_turns
In-sort_turns-of x [] m = m
In-sort_turns-of x (t ∷ ts) m = elim (In-insert_turn-of x t (sort_turns ts) m) [
  | inl e ↦ inl e
  | inr n ↦ inr (In-sort_turns-of x ts n)
]
