-- ===== src/Voice/Slots.antt =====
-- The slots of transcribePerTurn of apps/gateway/src/lib/voice/diarize.ts: those that are waited for, and
-- the list of results.
use modelforge_ai.Base.{
  ℕ, zero, suc, ◌≤◌, ◌<◌, ◌≡◌, ◌≢◌, refl, true, false, Option, none, some, List, [], ◌∷◌, map,
  arith, length, get_elem?, replicate, length-set, get_elem?-set_self, get_elem?-set_ne,
}
use modelforge_ai.Base.Text.{nat_eq, eq_of_beq}
use modelforge_ai.Voice.Segments.{TranscriptSegment}
use modelforge_ai.Voice.Workers.{is_busy, idle, put}

pub idle_removes :
    (i slot : ℕ) (busy : List ℕ)
    → is_busy i busy ≡ true
    → is_busy i (idle slot busy) ≡ false
    → i ≡ slot
idle_removes i slot [] h k = cc
idle_removes i slot (b ∷ bs) h k =
    ground (arith, idle_removes i slot bs, eq_of_beq b i, eq_of_beq b slot)

pub idle_keeps :
    (i slot : ℕ) (busy : List ℕ) → is_busy i (idle slot busy) ≡ true → is_busy i busy ≡ true
idle_keeps i slot [] h = h
idle_keeps i slot (b ∷ bs) h = ground (arith, idle_keeps i slot bs)

pub idle_self : (slot : ℕ) (busy : List ℕ) → is_busy slot (idle slot busy) ≡ false
idle_self slot [] = refl
idle_self slot (b ∷ bs) = ground (arith, idle_self slot bs)

pub length-idle : (slot : ℕ) (busy : List ℕ) → length (idle slot busy) ≤ length busy
length-idle slot [] = omega arith
length-idle slot (b ∷ bs) = ground (arith, length-idle slot bs)

pub length-idle_less :
    (slot : ℕ) (busy : List ℕ) → is_busy slot busy ≡ true → length (idle slot busy) < length busy
length-idle_less slot [] h = cc
length-idle_less slot (b ∷ bs) h = ground (arith, length-idle slot bs, length-idle_less slot bs)

pub length-put :
    (slot : ℕ) (o : Option TranscriptSegment) (rs : List (Option TranscriptSegment))
    → length (put slot o rs) ≡ length rs
length-put slot none rs = refl
length-put slot (some s) rs = length-set rs slot (some s)

pub get_elem?-put_ne :
    (slot i : ℕ) (o : Option TranscriptSegment) (rs : List (Option TranscriptSegment))
    → slot ≢ i
    → get_elem? (put slot o rs) i ≡ get_elem? rs i
get_elem?-put_ne slot i none rs h = refl
get_elem?-put_ne slot i (some s) rs h = get_elem?-set_ne rs (some s) h

pub get_elem?-put_self :
    (slot : ℕ) (o : Option TranscriptSegment) (rs : List (Option TranscriptSegment))
    → slot < length rs
    → get_elem? rs slot ≡ some none
    → get_elem? (put slot o rs) slot ≡ some o
get_elem?-put_self slot none rs h e = e
get_elem?-put_self slot (some s) rs h e = get_elem?-set_self rs slot (some s) h

pub get_elem?-map :
    {A B : Type 0} (f : A → B) (xs : List A) (i : ℕ) (a : A)
    → get_elem? xs i ≡ some a
    → get_elem? (map f xs) i ≡ some (f a)
get_elem?-map f [] i a h = cc
get_elem?-map f (x ∷ xs) zero a h = ground arith
get_elem?-map f (x ∷ xs) (suc i) a h = get_elem?-map f xs i a h

pub get_elem?-replicate :
    {A : Type 0} (n i : ℕ) (a : A) → i < n → get_elem? (replicate n a) i ≡ some a
get_elem?-replicate zero i a h = absurd (omega arith)
get_elem?-replicate (suc n) zero a h = refl
get_elem?-replicate (suc n) (suc i) a h = get_elem?-replicate n i a (omega arith)

pub get_elem?_inside :
    {A : Type 0} (xs : List A) (i : ℕ) → i < length xs → (a : A) × (get_elem? xs i ≡ some a)
get_elem?_inside [] i h = absurd (omega arith)
get_elem?_inside (x ∷ xs) zero h = (x, refl)
get_elem?_inside (x ∷ xs) (suc i) h = get_elem?_inside xs i (omega arith)

pub lists_equal :
    {A : Type 0} (xs ys : List A)
    → length xs ≡ length ys
    → ((i : ℕ) → i < length xs → get_elem? xs i ≡ get_elem? ys i)
    → xs ≡ ys
lists_equal [] [] h k = refl
lists_equal [] (y ∷ ys) h k = absurd (omega arith)
lists_equal (x ∷ xs) [] h k = absurd (omega arith)
lists_equal (x ∷ xs) (y ∷ ys) h k =
    let first : some x ≡ some y = k 0 (omega arith) in
    let rest = lists_equal xs ys (omega arith) (λ i l. k (suc i) (omega arith)) in cc
