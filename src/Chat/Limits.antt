-- ===== src/Chat/Limits.antt =====
-- The counts of a chat request: clampMaxTokens of apps/gateway/src/lib/retrieval.ts, and the estimates of
-- routes/v1.ts.
use modelforge_ai.Base.{ℕ, ◌+◌, ◌*◌, ◌≤◌, max, arith, Bool, true, false, length, List}
use modelforge_ai.Base.Units.{Units}
use modelforge_ai.Chat.Messages.{
  Turn, estimated_tokens, estimate_chat_tokens, prompt_tokens, clamp_max_tokens,
}

-- The completion may have at least 48 tokens, and no more than asked for where that is more; with the
-- estimate of the prompt and 96 more it stays in the context, or in what these take with 48 tokens
-- where that is more.
pub clamp_max_tokens_bounds :
    (context : ℕ) (ms : List Turn) (requested : ℕ)
    → (48 ≤ clamp_max_tokens context ms requested)
      × (clamp_max_tokens context ms requested ≤ max 48 requested)
      × (prompt_tokens ms + 96 + clamp_max_tokens context ms requested
          ≤ max context (prompt_tokens ms + 144))
unfolding clamp_max_tokens
clamp_max_tokens_bounds context ms requested = (omega arith, omega arith, omega arith)

-- What is metered where the engine gives no usage is within what was reserved, for a completion of no
-- more than four characters for each token that was asked for.
pub estimate_chat_tokens-le :
    (ms : List Turn) (completion : Units) (max_tokens : ℕ) (with_knowledge : Bool)
    → length completion ≤ 4 * max_tokens
    → (estimate_chat_tokens ms completion).0 + (estimate_chat_tokens ms completion).1
      ≤ estimated_tokens ms max_tokens with_knowledge
unfolding estimated_tokens estimate_chat_tokens
estimate_chat_tokens-le ms completion max_tokens true h = omega arith
estimate_chat_tokens-le ms completion max_tokens false h = omega arith
