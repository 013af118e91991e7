-- ===== src/Redaction/Tests.antt =====
-- core/security.py: log fields through `sanitize_log_data`.
use langgraph_agent_stack.Prelude.{text, lower, ◌≡◌, refl, false}
use langgraph_agent_stack.Redaction.{
  LogData, string, dict, list, end, entry, nil, item, is_sensitive_key, mask, word_here, search,
  sanitize_log_data,
}
use langgraph_agent_stack.Redaction.Masked.{IsMasked, sanitize_log_data-IsMasked}

-- All that the runs below compute with.
program : Unit {0}
unfolding lower is_sensitive_key word_here search sanitize_log_data
program = tt

abbrev secret : LogData
secret = entry (text "API_Key") (string (text "sk-1")) end

abbrev fields : LogData
fields = entry (text "user") (string (text "ana")) (
    entry (text "headers") (dict secret) (entry (text "calls") (list (item (dict secret) nil)) end))

masks_both :
    sanitize_log_data fields
    ≡ entry (text "user") (string (text "ana")) (
        entry
          (text "headers")
          (dict (entry (text "API_Key") mask end))
          (entry (text "calls") (list (item (dict (entry (text "API_Key") mask end)) nil)) end))
unfolding program
masks_both = refl

one_word : is_sensitive_key (text "tokens") ≡ false
unfolding program
one_word = refl

sanitize_log_data-IsMasked_example :
    IsMasked (sanitize_log_data fields)
    × (IsMasked fields → sanitize_log_data fields ≡ fields)
    × (sanitize_log_data (sanitize_log_data fields) ≡ sanitize_log_data fields)
sanitize_log_data-IsMasked_example = sanitize_log_data-IsMasked fields
