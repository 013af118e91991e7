-- ===== src/Redaction/Masked.antt =====
-- core/security.py: what `sanitize_log_data` masks, and what it does not reach.
use langgraph_agent_stack.Prelude.{Bool-cases, Text, ◌≡◌, refl, sym, ap, inl, inr, true, false}
use langgraph_agent_stack.Redaction.{
  LogValue, LogData, LogItems, string, other, dict, list, end, entry, nil, item, is_sensitive_key,
  mask, sanitize_log_data, sanitize_value, sanitize_items, sanitize_item,
}

-- Under every sensitive key stands the mask, in the data and in the dicts that it holds, directly
-- or as items of a list.
unfoldable mutual
  pub IsMasked : LogData → Type 0
  IsMasked end = Unit
  IsMasked (entry k v d) = (is_sensitive_key k ≡ true → v ≡ mask) × ValueMasked v × IsMasked d

  pub ValueMasked : LogValue → Type 0
  ValueMasked (string s) = Unit
  ValueMasked (other n) = Unit
  ValueMasked (dict d) = IsMasked d
  ValueMasked (list l) = ItemsMasked l

  pub ItemsMasked : LogItems → Type 0
  ItemsMasked nil = Unit
  ItemsMasked (item v l) = ItemMasked v × ItemsMasked l

  pub ItemMasked : LogValue → Type 0
  ItemMasked (string s) = Unit
  ItemMasked (other n) = Unit
  ItemMasked (dict d) = IsMasked d
  ItemMasked (list l) = Unit

mutual
  unfolding IsMasked ValueMasked ItemsMasked ItemMasked sanitize_log_data sanitize_value
      sanitize_items sanitize_item

  masked : (d : LogData) → IsMasked (sanitize_log_data d)
  masked end = tt
  masked (entry k v d) = elim (Bool-cases (is_sensitive_key k)) [
    | inl hit ↦ rw hit (λ _. refl, tt, masked d)
    | inr miss ↦ rw miss (λ h. absurd (cc h), value_masked v, masked d)
  ]

  value_masked : (v : LogValue) → ValueMasked (sanitize_value v)
  value_masked (string s) = tt
  value_masked (other n) = tt
  value_masked (dict d) = masked d
  value_masked (list l) = items_masked l

  items_masked : (l : LogItems) → ItemsMasked (sanitize_items l)
  items_masked nil = tt
  items_masked (item v l) = (item_masked v, items_masked l)

  item_masked : (v : LogValue) → ItemMasked (sanitize_item v)
  item_masked (string s) = tt
  item_masked (other n) = tt
  item_masked (dict d) = masked d
  item_masked (list l) = tt

mutual
  unfolding IsMasked ValueMasked ItemsMasked ItemMasked sanitize_log_data sanitize_value
      sanitize_items sanitize_item

  fixed : (d : LogData) → IsMasked d → sanitize_log_data d ≡ d
  fixed end h = refl
  fixed (entry k v d) h = elim (Bool-cases (is_sensitive_key k)) [
    | inl hit ↦ rw (hit, fixed d h.2) (ap (λ w. entry k w d) (sym (h.0 hit)))
    | inr miss ↦ rw (miss, fixed d h.2, value_fixed v h.1) refl
  ]

  value_fixed : (v : LogValue) → ValueMasked v → sanitize_value v ≡ v
  value_fixed (string s) h = refl
  value_fixed (other n) h = refl
  value_fixed (dict d) h = ap dict (fixed d h)
  value_fixed (list l) h = ap list (items_fixed l h)

  items_fixed : (l : LogItems) → ItemsMasked l → sanitize_items l ≡ l
  items_fixed nil h = refl
  items_fixed (item v l) h = rw (item_fixed v h.0, items_fixed l h.1) refl

  item_fixed : (v : LogValue) → ItemMasked v → sanitize_item v ≡ v
  item_fixed (string s) h = refl
  item_fixed (other n) h = refl
  item_fixed (dict d) h = ap dict (fixed d h)
  item_fixed (list l) h = refl

-- In what `sanitize_log_data` returns, every value under a sensitive key is the mask, at any depth
-- of dicts and of dicts in lists; data of which that holds already is returned as it is, so that a
-- second pass changes nothing.
pub sanitize_log_data-IsMasked :
    (d : LogData)
    → IsMasked (sanitize_log_data d)
      × (IsMasked d → sanitize_log_data d ≡ d)
      × (sanitize_log_data (sanitize_log_data d) ≡ sanitize_log_data d)
sanitize_log_data-IsMasked d = (masked d, fixed d, fixed (sanitize_log_data d) (masked d))

-- A list within a list is not searched: whatever dict it holds, with secrets or not, goes into the
-- log as it is.
pub sanitize_log_data-nested :
    (k : Text) (d : LogData)
    → is_sensitive_key k ≡ false
    → sanitize_log_data (entry k (list (item (list (item (dict d) nil)) nil)) end)
      ≡ entry k (list (item (list (item (dict d) nil)) nil)) end
unfolding sanitize_log_data
sanitize_log_data-nested k d h = rw h refl
