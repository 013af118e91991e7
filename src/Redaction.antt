-- ===== src/Redaction.antt =====
-- core/security.py: `sanitize_log_data`, the masking of log fields. A log value is a text, a dict, a
-- list or any other value; `lower` is that of ASCII.
pub mod Masked
mod Tests
use langgraph_agent_stack.Prelude.{
  leb, if◌then◌else◌, length, drop, any, Text, text, starts_with, lower, ℕ, Bool, true, false, not,
  ◌&&◌, ◌||◌, List, [], ◌∷◌,
}

mutual
  pub data LogValue : Type 0 where
    string : Text → LogValue
    other : ℕ → LogValue
    dict : LogData → LogValue
    list : LogItems → LogValue

  pub data LogData : Type 0 where
    end : LogData
    entry : Text → LogValue → LogData → LogData

  pub data LogItems : Type 0 where
    nil : LogItems
    item : LogValue → LogItems → LogItems

-- `[a-z0-9]`
abbrev pub is_word_char : ℕ → Bool
is_word_char c = (leb 97 c && leb c 122) || (leb 48 c && leb c 57)

abbrev pub sensitive_words : List Text
sensitive_words =
    text "key"
    ∷ text "token"
    ∷ text "secret"
    ∷ text "password"
    ∷ text "passwd"
    ∷ text "pwd"
    ∷ text "credential"
    ∷ text "authorization"
    ∷ text "auth_token"
    ∷ []

abbrev pub starts_free : Text → Bool
starts_free [] = true
starts_free (c ∷ s) = not (is_word_char c)

-- The word stands here, and no letter or digit follows it: `(word)(?![a-z0-9])`.
unfoldable pub word_here : Text → Text → Bool
word_here word s = starts_with word s && starts_free (drop (length word) s)

-- `_SENSITIVE_RE.search`; `free` says that no letter or digit stands directly before the text.
unfoldable pub search : Bool → Text → Bool
unfolding word_here
search free [] = false
search free (c ∷ s) =
    (free && any (λ word. word_here word (c ∷ s)) sensitive_words)
    || search (not (is_word_char c)) s

unfoldable pub is_sensitive_key : Text → Bool
unfolding search
is_sensitive_key key = search true (lower key)

abbrev pub mask : LogValue
mask = string (text "***REDACTED***")

unfoldable mutual
  pub sanitize_log_data : LogData → LogData
  sanitize_log_data end = end
  sanitize_log_data (entry k v data_left) =
      entry k (if is_sensitive_key k then mask else sanitize_value v) (sanitize_log_data data_left)

  pub sanitize_value : LogValue → LogValue
  sanitize_value (string s) = string s
  sanitize_value (other n) = other n
  sanitize_value (dict d) = dict (sanitize_log_data d)
  sanitize_value (list l) = list (sanitize_items l)

  -- `[sanitize_log_data(item) if isinstance(item, dict) else item for item in v]`
  pub sanitize_items : LogItems → LogItems
  sanitize_items nil = nil
  sanitize_items (item v l) = item (sanitize_item v) (sanitize_items l)

  pub sanitize_item : LogValue → LogValue
  sanitize_item (string s) = string s
  sanitize_item (other n) = other n
  sanitize_item (dict d) = dict (sanitize_log_data d)
  sanitize_item (list l) = list l
