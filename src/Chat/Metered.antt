-- ===== src/Chat/Metered.antt =====
-- What the chat handler of apps/gateway/src/routes/v1.ts meters of the chunks that the engine of apps/
-- gateway/src/engine/llamaServer.ts yields.
use Prim.Native.String.{String}
use modelforge_ai.Base.{
  ◌+◌, ◌<◌, ◌≡◌, refl, sym, subst, inl, inr, arith, Bool, true, false, Option, List, [], ◌∷◌, ◌++◌,
  Bool-cases, Option-cases, if◌then◌else◌,
}
use modelforge_ai.Base.Text.{◌==◌, text_eq, nat_eq}
use modelforge_ai.Base.Units.{Units}
use modelforge_ai.Base.Preds.{All}
use modelforge_ai.Engine.Stream.{
  UpstreamResponse, GenerateChunk, Progress, at_start, read_line, is_null_line, end_chunks,
  consume_value, consume_line, consume_lines, consume_pieces, stream_chunks, final_chunk,
  yield_delta, part_text, delta_part, note_finish, note_usage, is_blank,
}
use modelforge_ai.Chat.Messages.{Turn, estimate_chat_tokens}
use modelforge_ai.Chat.Answer.{
  Received, nothing_received, estimate_if_none, note_chunk, note_final, streamed_answer,
  gather_chunks, whole_answer,
}

abbrev IsDelta : GenerateChunk → Type 0
IsDelta c = c.is_final ≡ false

All-append : (xs ys : List GenerateChunk) → All IsDelta xs → All IsDelta ys → All IsDelta (xs ++ ys)
All-append [] ys h k = k
All-append (x ∷ xs) ys (first, h) k = (first, All-append xs ys h k)

yield_delta-IsDelta : (delta : String) (p : Progress) → All IsDelta (yield_delta delta p)
yield_delta-IsDelta delta p = elim (Bool-cases (is_blank delta)) [
  | inl blank ↦ rw blank tt
  | inr said ↦ rw said (refl, tt)
]

either-IsDelta :
    (b : Bool) (x y : Progress × List GenerateChunk)
    → All IsDelta x.1
    → All IsDelta y.1
    → All IsDelta (if b then x else y).1
either-IsDelta true x y h k = h
either-IsDelta false x y h k = k

module _ (trim : Units → Units) (json_parse : Units → Option UpstreamResponse)
    (json_mode : Bool) where
  consume_value-IsDelta :
      (line : Units) (p : Progress) → All IsDelta (consume_value trim json_parse json_mode line p).1
  unfolding consume_value
  consume_value-IsDelta line p = elim (Option-cases (read_line trim json_parse line)) [
    | inl skipped ↦
        let q : consume_value trim json_parse json_mode line p ≡ (p, []) =
          rw (consume_value, skipped) refl in
        subst (λ t. All IsDelta t.1) (sym q) tt
    | inr (r, read) ↦
        let p' = note_finish r.choice (note_usage r.usage p) in
        let delta = part_text json_mode (delta_part r.choice) in
        let q : consume_value trim json_parse json_mode line p ≡ (p', yield_delta delta p') =
          rw (consume_value, read) refl in
        subst (λ t. All IsDelta t.1) (sym q) (yield_delta-IsDelta delta p')
  ]

  consume_line-IsDelta :
      (line : Units) (p : Progress) → All IsDelta (consume_line trim json_parse json_mode line p).1
  unfolding consume_line
  consume_line-IsDelta line p =
      either-IsDelta p.thrown _ _ tt
        (either-IsDelta (is_null_line trim json_parse line) _ _ tt (consume_value-IsDelta line p))

  consume_lines-IsDelta :
      (lines : List Units) (p : Progress)
      → All IsDelta (consume_lines trim json_parse json_mode lines p).1
  unfolding consume_lines
  consume_lines-IsDelta [] p = tt
  consume_lines-IsDelta (l ∷ ls) p =
      All-append _ _ (consume_line-IsDelta l p) (consume_lines-IsDelta ls _)

  consume_pieces-IsDelta :
      (pieces : List Units) (buffer : Units) (p : Progress)
      → All IsDelta (consume_pieces trim json_parse json_mode pieces buffer p).1
  unfolding consume_pieces
  consume_pieces-IsDelta [] buffer p = tt
  consume_pieces-IsDelta (piece ∷ pieces) buffer p =
      All-append _ _ (consume_lines-IsDelta _ p) (consume_pieces-IsDelta pieces _ _)

  module _ (units : String → Units) (ms : List Turn) where
    -- Where the last chunk alone is final, breaking there is taking all.
    streamed_answer-gather :
        (cs : List GenerateChunk) (last : GenerateChunk) (r : Received)
        → All IsDelta cs
        → last.is_final ≡ true
        → streamed_answer units ms (cs ++ last ∷ []) r
          ≡ estimate_if_none ms (gather_chunks units (cs ++ last ∷ []) r)
    unfolding streamed_answer gather_chunks note_final note_chunk
    streamed_answer-gather [] last r h final = rw final refl
    streamed_answer-gather (c ∷ cs) last r (delta, h) final =
        rw delta (streamed_answer-gather cs last (note_chunk units c r) h final)

    -- The chunks of an event stream that does not throw are metered alike whether the client streams them or
    -- not: the content, the tokens, estimated where the engine gives none, and the reason of the end.
    pub streamed_answer-stream_chunks :
        (pieces : List Units)
        → (consume_pieces trim json_parse json_mode pieces [] at_start).0.thrown ≡ false
        → streamed_answer units ms (stream_chunks trim json_parse json_mode pieces) nothing_received
          ≡ whole_answer units ms (stream_chunks trim json_parse json_mode pieces)
    unfolding stream_chunks whole_answer end_chunks
    streamed_answer-stream_chunks pieces whole =
        let (p, chunks) = consume_pieces trim json_parse json_mode pieces [] at_start in
        rw whole (
          streamed_answer-gather chunks (final_chunk p) nothing_received
            (consume_pieces-IsDelta pieces [] at_start) refl)

-- A whole answer is metered as a token at least.
pub whole_answer-pos :
    (units : String → Units) (ms : List Turn) (cs : List GenerateChunk)
    → 0 < (whole_answer units ms cs).prompt_tokens + (whole_answer units ms cs).completion_tokens
unfolding whole_answer estimate_if_none estimate_chat_tokens
whole_answer-pos units ms cs =
    let r = gather_chunks units cs nothing_received in
    elim (Bool-cases (r.prompt_tokens + r.completion_tokens == 0)) [
      | inl none_given ↦ rw none_given (omega arith)
      | inr given ↦ rw given (ground (arith, given))
    ]
