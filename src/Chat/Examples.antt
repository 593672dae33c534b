-- ===== src/Chat/Examples.antt =====
-- Chat requests of the gateway on concrete messages, errors and rows.
use Prim.Native.String.{String}
use modelforge_ai.Base.{
  ℕ, Option, true, if◌then◌else◌, ◌||◌, ◌≡◌, refl, Bool, false, none, some, List, [], ◌∷◌,
}
use modelforge_ai.Base.Text.{◌==◌, text_eq, nat_eq}
use modelforge_ai.Base.Units.{Units, trim, trim_start, trim_end}
use modelforge_ai.Chat.Messages.{
  Role, Turn, push_turn, coalesce_onto, coalesce_alternating_roles, clamp_max_tokens, prompt_tokens,
  estimate_prompt_tokens,
}
use modelforge_ai.Chat.Coalesce.{IsWellFormed, coalesce_alternating_roles-IsWellFormed}
use modelforge_ai.Engine.Stream.{GenerateChunk, UpstreamResponse}
use modelforge_ai.Chat.Errors.{
  text_code, OtherError, engine_error, other_error, ApiErrorType, GrpcStatus, answer, reply_to,
}
use modelforge_ai.Chat.Replies.{IsConsistentReply, reply_to-IsConsistentReply, reply_to-coded}

-- The blank and the end of a line.
abbrev blank_or_break : ℕ → Bool
blank_or_break c = c == 32 || c == 10

-- " a", then " ", then "b" of the same user; and an answer, "c".
abbrev two_turns : List Turn
two_turns =
    (record { role = Role.user; content = 32 ∷ 97 ∷ [] })
    ∷ (record { role = Role.user; content = 32 ∷ [] })
    ∷ (record { role = Role.user; content = 98 ∷ [] })
    ∷ (record { role = Role.assistant; content = 99 ∷ [] })
    ∷ []

abbrev coalesced : List Turn
coalesced =
    (record { role = Role.user; content = 97 ∷ 10 ∷ 10 ∷ 98 ∷ [] })
    ∷ (record { role = Role.assistant; content = 99 ∷ [] })
    ∷ []

coalesce_two_turns : coalesce_alternating_roles blank_or_break two_turns ≡ coalesced
unfolding coalesce_alternating_roles coalesce_onto trim trim_end trim_start push_turn
coalesce_two_turns = refl

coalesce_alternating_roles-IsWellFormed_example :
    IsWellFormed blank_or_break (coalesce_alternating_roles blank_or_break two_turns)
coalesce_alternating_roles-IsWellFormed_example =
    coalesce_alternating_roles-IsWellFormed blank_or_break refl two_turns

clamp_max_tokens_room : clamp_max_tokens 256 coalesced 512 ≡ 157
unfolding clamp_max_tokens prompt_tokens estimate_prompt_tokens
clamp_max_tokens_room = refl

abbrev numbers : GrpcStatus
numbers = record { not_found = 5; unavailable = 14; deadline_exceeded = 4; invalid_argument = 3 }

abbrev no_oom : String → Bool
no_oom text = false

-- What resolveModelForRequest throws for a model that is not on the plan.
abbrev unknown_model : OtherError
unknown_model = record {
  name = "Error";
  message = "Model llama not available on your plan";
  code = text_code "MODEL_NOT_FOUND";
  details = "";
}

reply_to-IsConsistentReply_example :
    IsConsistentReply false (reply_to numbers no_oom false false false (engine_error "OOM" "full"))
reply_to-IsConsistentReply_example =
    reply_to-IsConsistentReply numbers no_oom false false false (engine_error "OOM" "full")

reply_to-coded_example :
    reply_to numbers no_oom false false false (other_error unknown_model)
    ≡ answer (record {
      type = ApiErrorType.server_error;
      message = "Model llama not available on your plan";
      status = 500;
      retry_after = none;
    })
reply_to-coded_example =
    reply_to-coded numbers no_oom false false unknown_model "MODEL_NOT_FOUND" refl refl refl

abbrev units_of : String → Units
units_of text = if text == "" then [] else 120 ∷ []

-- Every line is a part with the text "x", and gives no usage.
abbrev says_x : Units → Option UpstreamResponse
says_x text = some (record {
  choice = some (record {
    delta = some (record { content = some "x"; reasoning_content = none });
    message = none;
    finish_reason = none;
  });
  usage = none;
})

-- "data:1\n"
abbrev one_event : List Units
one_event = (100 ∷ 97 ∷ 116 ∷ 97 ∷ 58 ∷ 49 ∷ 10 ∷ []) ∷ []

abbrev said_x : GenerateChunk
said_x = record {
  delta = "x";
  is_final = true;
  prompt_tokens = 0;
  completion_tokens = 0;
  finish_reason = "stop";
}
