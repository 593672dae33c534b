-- ===== src/Signing/Replay.antt =====
-- isReplay of packages/platform/src/federation.ts, over a sequence of commands.
use Prim.Native.String.{String}
use modelforge_ai.Base.{ℕ, ◌+◌, ◌≡◌, arith, Bool, true, false, List, [], ◌∷◌, if◌then◌else◌}
use modelforge_ai.Base.Text.{◌==◌, text_eq}
use modelforge_ai.Base.Preds.{any}

-- Whether the nonce has been seen, and the set afterwards.
unfoldable pub is_replay : String → List String → Bool × List String
is_replay nonce seen = if any (λ s. s == nonce) seen then (true, seen) else (false, nonce ∷ seen)

-- The commands with a nonce that are not taken for replays.
unfoldable pub accepted : String → List String → List String → ℕ
accepted nonce [] seen = 0
accepted nonce (n ∷ ns) seen =
    let (replayed, seen') = is_replay n seen in
    let rest = accepted nonce ns seen' in
    if n == nonce then (if replayed then rest else rest + 1) else rest

-- Of the commands that carry one nonce exactly one is accepted, if it has not been seen before the
-- sequence and occurs in it, and none otherwise.
pub accepted_once :
    (nonce : String) (ns seen : List String)
    → accepted nonce ns seen
      ≡ (if any (λ s. s == nonce) seen then 0 else (if any (λ n. n == nonce) ns then 1 else 0))
unfolding accepted is_replay
accepted_once nonce [] seen = ground arith
accepted_once nonce (n ∷ ns) seen =
    ground (
      arith,
      text_eq.beq_iff n nonce,
      accepted_once nonce ns seen,
      accepted_once nonce ns (n ∷ seen),
    )
