-- ===== src/Cost/Aliases.antt =====
-- core/cost.py: `MODEL_ID_PREFIX_ALIASES`.
use langgraph_agent_stack.Prelude.{Text, text, List, [], ◌∷◌}

unfoldable pub model_id_prefix_aliases : List (Text × Text)
model_id_prefix_aliases =
    (text "claude-sonnet-4", text "claude-sonnet-4-20250514")
    ∷ (text "claude-opus-4-1", text "claude-opus-4-1")
    ∷ (text "claude-opus-4-8", text "claude-opus-4-8")
    ∷ (text "claude-opus-4", text "claude-opus-4-20250514")
    ∷ (text "claude-haiku-4-5", text "claude-haiku-4-5")
    ∷ (text "claude-sonnet-5", text "claude-sonnet-5")
    ∷ (text "claude-3-5-sonnet", text "claude-3-5-sonnet-20241022")
    ∷ (text "claude-3-5-haiku", text "claude-3-5-haiku-20241022")
    ∷ (text "claude-3-opus", text "claude-3-opus-20240229")
    ∷ (text "claude-3-haiku", text "claude-3-haiku-20240307")
    ∷ (text "gpt-4.1-nano", text "gpt-4.1-nano")
    ∷ (text "gpt-4.1-mini", text "gpt-4.1-mini")
    ∷ (text "gpt-4.1", text "gpt-4.1")
    ∷ (text "gpt-4o-mini", text "gpt-4o-mini")
    ∷ (text "gpt-4o", text "gpt-4o")
    ∷ (text "gpt-4-turbo", text "gpt-4-turbo")
    ∷ (text "o3-mini", text "o3-mini")
    ∷ (text "o3", text "o3")
    ∷ (text "o1-mini", text "o1-mini")
    ∷ (text "o1", text "o1")
    ∷ (text "gemini-2.5-pro", text "gemini-2.5-pro")
    ∷ (text "gemini-2.5-flash", text "gemini-2.5-flash")
    ∷ (text "gemini-2.0-flash", text "gemini-2.0-flash")
    ∷ (text "gemini-1.5-pro", text "gemini-1.5-pro")
    ∷ (text "gemini-1.5-flash", text "gemini-1.5-flash")
    ∷ (text "anthropic.claude-3-5-sonnet", text "claude-3-5-sonnet-20241022")
    ∷ (text "anthropic.claude-3-5-haiku", text "claude-3-5-haiku-20241022")
    ∷ (text "anthropic.claude-3-opus", text "claude-3-opus-20240229")
    ∷ (text "anthropic.claude-sonnet-4", text "claude-sonnet-4-20250514")
    ∷ (text "anthropic.claude-opus-4-8", text "claude-opus-4-8")
    ∷ (text "anthropic.claude-opus-4", text "claude-opus-4-20250514")
    ∷ (text "anthropic.claude-haiku-4-5", text "claude-haiku-4-5")
    ∷ (text "anthropic.claude-sonnet-5", text "claude-sonnet-5")
    ∷ (text "meta.llama3-3-70b-instruct", text "llama-3.3-70b-instruct")
    ∷ (text "meta.llama3-1-405b-instruct", text "llama-3.1-405b-instruct")
    ∷ (text "meta.llama3-1-70b-instruct", text "llama-3.1-70b-instruct")
    ∷ (text "meta.llama3-1-8b-instruct", text "llama-3.1-8b-instruct")
    ∷ (text "mistral-large", text "mistral-large-latest")
    ∷ (text "mistral-small", text "mistral-small-latest")
    ∷ []
