-- ===== src/Chat/Messages.antt =====
-- The messages of a chat request (packages/engine/src/schema.ts: normalizeMessages and
-- coalesceAlternatingRoles), and the counts that apps/gateway/src/lib/retrieval.ts and routes/v1.ts make
-- of them. White space, for String.prototype.trim, is a parameter.
use modelforge_ai.Base.{
  ℕ, ◌+◌, ◌-◌, ◌/◌, min, max, Bool, true, false, not, ◌&&◌, Option, none, some, List, [], ◌∷◌, ◌++◌,
  map, length, if◌then◌else◌,
}
use modelforge_ai.Base.Units.{Units, is_empty, join, trim}
use modelforge_ai.Base.Preds.{filter}

pub data Role : Type 0 where
  system user assistant tool : Role

pub data Content : Type 0 where
  plain : Units → Content
  parts : List (Option Units) → Content

-- A part of a message has a text or has none.
pub record ChatMessage : Type 0 where
  pub role : Role
  pub content : Content

pub record Turn : Type 0 where
  pub role : Role
  pub content : Units

-- `part.text ?? ""`
abbrev pub text_of : Option Units → Units
text_of none = []
text_of (some text) = text

unfoldable pub normalize_content : Content → Units
normalize_content (plain text) = text
normalize_content (parts ps) = join (10 ∷ []) (filter (λ t. not (is_empty t)) (map text_of ps))

unfoldable pub normalize_messages : List ChatMessage → List Turn
normalize_messages ms =
    map (λ m. record { role = m.role; content = normalize_content m.content }) ms

abbrev pub same_role : Role → Role → Bool
same_role Role.system Role.system = true
same_role Role.user Role.user = true
same_role Role.assistant Role.assistant = true
same_role Role.tool Role.tool = true
same_role _ _ = false

abbrev pub is_coalescable : Role → Bool
is_coalescable Role.user = true
is_coalescable Role.assistant = true
is_coalescable _ = false

-- The two turns become one.
abbrev pub merges : Turn → Turn → Bool
merges last m = same_role last.role m.role && is_coalescable m.role

module _ (is_space : ℕ → Bool) where
  abbrev pub merged : Turn → Turn → Turn
  merged last m = record last {
    content = trim is_space (last.content ++ (10 ∷ 10 ∷ []) ++ m.content);
  }

  -- A message behind the output.
  unfoldable pub push_turn : List Turn → Turn → List Turn
  push_turn [] m = m ∷ []
  push_turn (last ∷ []) m = if merges last m then merged last m ∷ [] else last ∷ m ∷ []
  push_turn (t ∷ u ∷ us) m = t ∷ push_turn (u ∷ us) m

  -- The loop over the messages, with its output.
  unfoldable pub coalesce_onto : List Turn → List Turn → List Turn
  coalesce_onto output [] = output
  coalesce_onto output (m ∷ ms) =
      let blank = coalesce_onto output ms in
      let pushed = coalesce_onto (push_turn output m) ms in
      if is_empty (trim is_space m.content) then blank else pushed

  unfoldable pub coalesce_alternating_roles : List Turn → List Turn
  coalesce_alternating_roles ms = coalesce_onto [] ms

-- Math.ceil(n / d)
abbrev pub ceil_div : ℕ → ℕ → ℕ
ceil_div n d = (n + (d - 1)) / d

abbrev pub characters : List Turn → ℕ
characters [] = 0
characters (m ∷ ms) = length m.content + characters ms

-- What the chat handler reserves.
unfoldable pub estimated_tokens : List Turn → ℕ → Bool → ℕ
estimated_tokens ms max_tokens with_knowledge =
    max 64 (ceil_div (characters ms) 4) + max_tokens + (if with_knowledge then 1_024 else 0)

-- What is metered where the engine gives no usage: of the prompt, and of the completion.
unfoldable pub estimate_chat_tokens : List Turn → Units → ℕ × ℕ
estimate_chat_tokens ms completion =
    (max 1 (ceil_div (characters ms) 4), max 0 (ceil_div (length completion) 4))

unfoldable pub estimate_prompt_tokens : Units → ℕ
estimate_prompt_tokens text = max 1 (ceil_div (length text) 2)

unfoldable pub prompt_tokens : List Turn → ℕ
prompt_tokens [] = 0
prompt_tokens (m ∷ ms) = estimate_prompt_tokens m.content + prompt_tokens ms

-- A negative room is below 48, as none is.
unfoldable pub clamp_max_tokens : ℕ → List Turn → ℕ → ℕ
clamp_max_tokens context ms requested =
    let room = context - (prompt_tokens ms + 96) in max 48 (min requested (max 48 room))
