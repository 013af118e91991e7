-- ===== src/Agents.antt =====
-- connectors/base.py: the provenance of a connector's record. A record is a dictionary whose values
-- are texts or None.
pub mod Research
pub mod Graph
pub mod Rounds
pub mod Ends
pub mod Sources
pub mod Cited
mod Tests
use langgraph_agent_stack.Prelude.{
  if◌then◌else◌, or_else, take, mem, Text, text, strip, nonempty, decimal, ℕ, Option, none, some,
  List, [], ◌∷◌, ◌++◌, text_eq, nat_eq,
}
use langgraph_agent_stack.Prelude.Dict
use langgraph_agent_stack.Prelude.Dict.{Dict}

abbrev pub Record : Type 0
Record = Dict Text (Option Text)

pub record SourceRef : Type 0 where
  pub id : Text
  pub title : Option Text
  pub url : Option Text
  pub snippet : Text
  pub metadata : Record

abbrev pub id_keys : List Text
id_keys = text "id" ∷ text "doc_id" ∷ []

abbrev pub title_keys : List Text
title_keys = text "title" ∷ text "name" ∷ []

abbrev pub url_keys : List Text
url_keys = text "url" ∷ text "link" ∷ text "source" ∷ []

abbrev pub snippet_keys : List Text
snippet_keys = text "snippet" ∷ text "text" ∷ text "content" ∷ []

-- `record.get(key)`, without white space, or empty
abbrev pub stripped_value : Option (Option Text) → Text
stripped_value none = []
stripped_value (some none) = []
stripped_value (some (some value)) = strip value

unfoldable pub first_str : Record → List Text → Option (Text × Text)
unfolding strip Dict.get
first_str rec [] = none
first_str rec (key ∷ keys) =
    let later = first_str rec keys in
    let value = stripped_value (Dict.get key rec) in
    if nonempty value then some (key, value) else later

abbrev pub found_key : Option (Text × Text) → List Text
found_key none = []
found_key (some (key, value)) = key ∷ []

abbrev pub found_value : Option (Text × Text) → Option Text
found_value none = none
found_value (some (key, value)) = some value

abbrev pub without : List Text → Record → Record
without consumed [] = []
without consumed ((k, v) ∷ rest) =
    let others = without consumed rest in if mem k consumed then others else (k, v) ∷ others

abbrev pub snippet_max_chars : ℕ
snippet_max_chars = 500

unfoldable pub record_to_source_ref : Record → ℕ → SourceRef
unfolding first_str decimal
record_to_source_ref rec index =
    let found_id = first_str rec id_keys in
    let found_title = first_str rec title_keys in
    let found_url = first_str rec url_keys in
    let found_snippet = first_str rec snippet_keys in
    let consumed =
      found_key found_id
      ++ found_key found_title
      ++ found_key found_url
      ++ found_key found_snippet in
    record {
      id = or_else (found_value found_id) (text "doc-" ++ decimal index);
      title = found_value found_title;
      url = found_value found_url;
      snippet = take snippet_max_chars (or_else (found_value found_snippet) []);
      metadata = without consumed rec;
    }

-- `" — ".join(part for part in (title, url) if part)`
abbrev pub joined : Text → Text → Text
joined title url =
    if nonempty title then if nonempty url then title ++ (text " — " ++ url) else title else url

unfoldable pub citation : SourceRef → Text
citation ref =
    let label = joined (or_else ref.title []) (or_else ref.url []) in
    let tag = text "[" ++ (ref.id ++ text "]") in
    if nonempty label then tag ++ (text " " ++ label) else tag
