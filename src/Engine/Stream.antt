-- ===== src/Engine/Stream.antt =====
-- generateStream of apps/gateway/src/engine/llamaServer.ts after the request is accepted: the event
-- stream of llama-server is cut into lines, and each line becomes a chunk or nothing. A text is the list
-- of its code units; what TextDecoder, trim and JSON.parse do is a parameter.
use Prim.Native.String.{String}
use modelforge_ai.Base.{
  ℕ, Bool, true, false, Option, none, some, List, [], ◌∷◌, ◌++◌, if◌then◌else◌,
}
use modelforge_ai.Base.Units.{Units}
use modelforge_ai.Base.Text.{◌==◌, text_eq, nat_eq}

pub record UpstreamPart : Type 0 where
  pub content : Option String
  pub reasoning_content : Option String

pub record UpstreamChoice : Type 0 where
  pub delta : Option UpstreamPart
  pub message : Option UpstreamPart
  pub finish_reason : Option String

pub record UpstreamUsage : Type 0 where
  pub prompt_tokens : Option ℕ
  pub completion_tokens : Option ℕ

-- `choices?.[0]` and `usage`.
pub record UpstreamResponse : Type 0 where
  pub choice : Option UpstreamChoice
  pub usage : Option UpstreamUsage

pub record GenerateChunk : Type 0 where
  pub delta : String
  pub is_final : Bool
  pub prompt_tokens : ℕ
  pub completion_tokens : ℕ
  pub finish_reason : String

abbrev pub or_else {ℓ} : {A : Type ℓ} → Option A → A → A
or_else none d = d
or_else (some a) d = a

abbrev pub is_blank : String → Bool
is_blank s = s == ""

-- The content, or the reasoning where there is none; in JSON mode the content alone.
unfoldable pub part_text : Bool → Option UpstreamPart → String
part_text json_mode none = ""
part_text json_mode (some p) =
    let content = or_else p.content "" in
    if json_mode
    then content
    else (if is_blank content then or_else p.reasoning_content "" else content)

-- buffer.split("\n"), and the last piece, which stays in the buffer.
abbrev pub prepend_unit : ℕ → List Units × Units → List Units × Units
prepend_unit c ([], rest) = ([], c ∷ rest)
prepend_unit c (l ∷ ls, rest) = ((c ∷ l) ∷ ls, rest)

abbrev pub prepend_line : List Units × Units → List Units × Units
prepend_line (ls, rest) = ([] ∷ ls, rest)

unfoldable pub split_lines : Units → List Units × Units
split_lines [] = ([], [])
split_lines (c ∷ cs) =
    let r = split_lines cs in if c == 10 then prepend_line r else prepend_unit c r

-- "data:"
abbrev pub data_prefix : Units
data_prefix = 100 ∷ 97 ∷ 116 ∷ 97 ∷ 58 ∷ []

-- The mark in brackets that ends a stream.
abbrev pub done_mark : Units
done_mark = 91 ∷ 68 ∷ 79 ∷ 78 ∷ 69 ∷ 93 ∷ []

abbrev pub null_text : Units
null_text = 110 ∷ 117 ∷ 108 ∷ 108 ∷ []

-- What follows the prefix, if the text starts with it.
unfoldable pub after_prefix : Units → Units → Option Units
after_prefix [] text = some text
after_prefix (p ∷ ps) [] = none
after_prefix (p ∷ ps) (c ∷ cs) = let rest = after_prefix ps cs in if p == c then rest else none

unfoldable pub same_text : Units → Units → Bool
same_text [] [] = true
same_text [] (c ∷ cs) = false
same_text (c ∷ cs) [] = false
same_text (c ∷ cs) (d ∷ ds) = let rest = same_text cs ds in if c == d then rest else false

-- promptTokens, completionTokens and finishReason, and whether the generator has thrown.
pub record Progress : Type 0 where
  pub prompt_tokens : ℕ
  pub completion_tokens : ℕ
  pub finish_reason : String
  pub thrown : Bool

abbrev pub at_start : Progress
at_start = record {
  prompt_tokens = 0;
  completion_tokens = 0;
  finish_reason = "stop";
  thrown = false;
}

unfoldable pub note_usage : Option UpstreamUsage → Progress → Progress
note_usage none p = p
note_usage (some u) p = record p {
  prompt_tokens = or_else u.prompt_tokens p.prompt_tokens;
  completion_tokens = or_else u.completion_tokens p.completion_tokens;
}

-- The empty reason is falsy.
unfoldable pub note_finish : Option UpstreamChoice → Progress → Progress
note_finish none p = p
note_finish (some c) p = elim c.finish_reason [
  | none ↦ p
  | some reason ↦ if is_blank reason then p else record p { finish_reason = reason }
]

abbrev pub delta_part : Option UpstreamChoice → Option UpstreamPart
delta_part none = none
delta_part (some c) = c.delta

abbrev pub message_part : Option UpstreamChoice → Option UpstreamPart
message_part none = none
message_part (some c) = c.message

abbrev pub finish_of : Option UpstreamChoice → String
finish_of none = "stop"
finish_of (some c) = or_else c.finish_reason "stop"

-- `if (delta) yield …`
abbrev pub yield_delta : String → Progress → List GenerateChunk
yield_delta delta p =
    if is_blank delta
    then []
    else (record {
      delta = delta;
      is_final = false;
      prompt_tokens = p.prompt_tokens;
      completion_tokens = p.completion_tokens;
      finish_reason = "";
    })
      ∷ []

abbrev pub final_chunk : Progress → GenerateChunk
final_chunk p = record {
  delta = "";
  is_final = true;
  prompt_tokens = p.prompt_tokens;
  completion_tokens = p.completion_tokens;
  finish_reason = p.finish_reason;
}

-- The last yield, which is not reached where a line has thrown.
unfoldable pub end_chunks : Progress → List GenerateChunk
end_chunks p = if p.thrown then [] else final_chunk p ∷ []

module _ (trim : Units → Units) (json_parse : Units → Option UpstreamResponse) where
  -- What a line carries: not a comment or an event's name, not the end mark, and well formed.
  unfoldable pub read_line : Units → Option UpstreamResponse
  read_line line = elim (after_prefix data_prefix (trim line)) [
    | none ↦ none
    | some rest ↦ if same_text (trim rest) done_mark then none else json_parse (trim rest)
  ]

  -- The line carries the value null, whose `usage` cannot be read: this throws, outside the `try`.
  unfoldable pub is_null_line : Units → Bool
  is_null_line line = elim (after_prefix data_prefix (trim line)) [
    | none ↦ false
    | some rest ↦ same_text (trim rest) null_text
  ]

  module _ (json_mode : Bool) where
    unfoldable pub consume_value : Units → Progress → Progress × List GenerateChunk
    consume_value line p = elim (read_line line) [
      | none ↦ (p, [])
      | some r ↦
          let p' = note_finish r.choice (note_usage r.usage p) in
          (p', yield_delta (part_text json_mode (delta_part r.choice)) p')
    ]

    -- The body of the loop over the lines; after a throw nothing is read.
    unfoldable pub consume_line : Units → Progress → Progress × List GenerateChunk
    consume_line line p =
        if p.thrown
        then (p, [])
        else if is_null_line line
        then (record p { thrown = true }, [])
        else consume_value line p

    unfoldable pub consume_lines : List Units → Progress → Progress × List GenerateChunk
    consume_lines [] p = (p, [])
    consume_lines (l ∷ ls) p =
        let (p', now) = consume_line l p in
        let (p'', later) = consume_lines ls p' in (p'', now ++ later)

    -- The loop over the pieces that arrive; a line that is not ended stays in the buffer.
    unfoldable pub consume_pieces : List Units → Units → Progress → Progress × List GenerateChunk
    consume_pieces [] buffer p = (p, [])
    consume_pieces (piece ∷ pieces) buffer p =
        let (lines, rest) = split_lines (buffer ++ piece) in
        let (p', now) = consume_lines lines p in
        let (p'', later) = consume_pieces pieces rest p' in (p'', now ++ later)

    unfoldable pub stream_chunks : List Units → List GenerateChunk
    stream_chunks pieces =
        let (p, chunks) = consume_pieces pieces [] at_start in chunks ++ end_chunks p

    abbrev pub usage_progress : UpstreamResponse → Progress
    usage_progress body = elim body.usage [
      | none ↦ record {
        prompt_tokens = 0;
        completion_tokens = 0;
        finish_reason = finish_of body.choice;
        thrown = false;
      }
      | some u ↦ record {
        prompt_tokens = or_else u.prompt_tokens 0;
        completion_tokens = or_else u.completion_tokens 0;
        finish_reason = finish_of body.choice;
        thrown = false;
      }
    ]

    -- Without streaming: the one chunk of the body.
    unfoldable pub whole_chunk : UpstreamResponse → GenerateChunk
    whole_chunk body = record (final_chunk (usage_progress body)) {
      delta = part_text json_mode (message_part body.choice);
    }
