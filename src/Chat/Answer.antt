-- ===== src/Chat/Answer.antt =====
-- How the chat handler of apps/gateway/src/routes/v1.ts takes the chunks of the engine: the loop of a
-- streamed answer, which ends at the final chunk, and that of a whole one, which takes all. The code units
-- of a text are a parameter; what is written to the client is left out.
use Prim.Native.String.{String}
use modelforge_ai.Base.{ℕ, ◌+◌, ◌||◌, List, [], ◌∷◌, ◌++◌, if◌then◌else◌}
use modelforge_ai.Base.Text.{◌==◌, text_eq, nat_eq}
use modelforge_ai.Base.Units.{Units}
use modelforge_ai.Engine.Stream.{GenerateChunk}
use modelforge_ai.Chat.Messages.{Turn, estimate_chat_tokens}

-- promptTokens, completionTokens, content and finishReason.
pub record Received : Type 0 where
  pub prompt_tokens : ℕ
  pub completion_tokens : ℕ
  pub content : Units
  pub finish_reason : String

abbrev pub nothing_received : Received
nothing_received = record {
  prompt_tokens = 0;
  completion_tokens = 0;
  content = [];
  finish_reason = "stop";
}

-- `chunk.prompt_tokens || promptTokens`
abbrev pub or_previous : ℕ → ℕ → ℕ
or_previous n previous = if n == 0 then previous else n

abbrev pub finish_of : String → String
finish_of reason = if reason == "length" || reason == "error" then reason else "stop"

-- The estimates take the place of a usage of nothing.
unfoldable pub estimate_if_none : List Turn → Received → Received
estimate_if_none ms r =
    let (prompt, completion) = estimate_chat_tokens ms r.content in
    if r.prompt_tokens + r.completion_tokens == 0
    then record r { prompt_tokens = prompt; completion_tokens = completion }
    else r

module _ (units : String → Units) where
  unfoldable pub note_chunk : GenerateChunk → Received → Received
  note_chunk c r = record r {
    prompt_tokens = or_previous c.prompt_tokens r.prompt_tokens;
    completion_tokens = or_previous c.completion_tokens r.completion_tokens;
    content = if c.delta == "" then r.content else r.content ++ units c.delta;
  }

  unfoldable pub note_final : GenerateChunk → Received → Received
  note_final c r = if c.is_final then record r { finish_reason = finish_of c.finish_reason } else r

  -- Streamed: the loop breaks at the final chunk.
  unfoldable pub streamed_answer : List Turn → List GenerateChunk → Received → Received
  streamed_answer ms [] r = r
  streamed_answer ms (c ∷ cs) r =
      let noted = note_chunk c r in
      let rest = streamed_answer ms cs noted in
      if c.is_final then estimate_if_none ms (note_final c noted) else rest

  unfoldable pub gather_chunks : List GenerateChunk → Received → Received
  gather_chunks [] r = r
  gather_chunks (c ∷ cs) r = gather_chunks cs (note_final c (note_chunk c r))

  unfoldable pub whole_answer : List Turn → List GenerateChunk → Received
  whole_answer ms cs = estimate_if_none ms (gather_chunks cs nothing_received)
