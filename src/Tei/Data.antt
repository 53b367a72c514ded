-- ===== src/Tei/Data.antt =====
-- What tei_converter.py reads: the NLP results, dictionaries of a dynamic language, and the schema.
-- A field of type `Option` is a key that may be missing; a key that the provider writes is taken to
-- hold a value of the documented type, except where the code tests for another.
use tei_nlp_converter.Base.{
  ℕ, String, Bool, Option, none, some, List, Dict, Result, ok, raise, type_error, Settles,
  Settles-ok, Settles-raise,
}

-- `d['k']`, which is missing, no list, or a list.
pub data Field {ℓ} (A : Type ℓ) : Type ℓ where
  missing : Field A
  not_list : Field A
  list : List A → Field A

-- An entry of such a list: the code tests whether it is a dictionary.
pub data Entry {ℓ} (A : Type ℓ) : Type ℓ where
  not_dict : Entry A
  dict : A → Entry A

-- A confidence score in thousandths, with its `str`.
pub record Score : Type 0 where
  pub thousandths : ℕ
  pub shown : String

pub record Token : Type 0 where
  pub i : Option ℕ
  pub idx : Option ℕ
  pub text : Option String
  pub lemma : Option String
  pub pos : Option String
  pub dep : Option String
  pub morph : Option String
  pub is_punct : Option Bool
  pub is_space : Option Bool
  pub whitespace : Option String

pub record Sentence : Type 0 where
  pub text : Option String
  pub tokens : Field Token

pub record Entity : Type 0 where
  pub text : Option String
  pub label : Option String
  pub start : Option ℕ
  pub end : Option ℕ
  pub start_char : Option ℕ
  pub end_char : Option ℕ
  pub confidence : Option Score
  pub kb_id : Option String

pub record Dependency : Type 0 where
  pub from : Option ℕ
  pub to : Option ℕ
  pub dep : Option String
  pub from_text : Option String
  pub to_text : Option String

-- Of the noun chunks only the number is read.
pub record NlpResults : Type 0 where
  pub sentences : Field (Entry Sentence)
  pub entities : Field (Entry Entity)
  pub dependencies : Option (List Dependency)
  pub language : Option String
  pub noun_chunks : Option ℕ

-- `classification` is the truth of its value, `text_class` whether the key is there.
pub record Schema : Type 0 where
  pub domain : Option String
  pub annotation_strategy : Option String
  pub entity_mappings : Option (Dict String String)
  pub title : Option String
  pub author : Option String
  pub description : Option String
  pub schema_ref : Option String
  pub classification : Bool
  pub text_class : Bool
  pub use_paragraphs : Option Bool
  pub include_analysis : Option Bool
  pub include_lemma : Option Bool
  pub include_pos : Option Bool
  pub include_morph : Option Bool
  pub include_dep : Option Bool
  pub include_dependencies : Option Bool

-- `schema.get(key, default)`
abbrev pub get_or {ℓ} : {A : Type ℓ} → Option A → A → A
get_or none d = d
get_or (some a) d = a

-- Subscripting an entry that is no dictionary raises.
abbrev pub dict_of {ℓ} : {A : Type ℓ} → Entry A → Result A
dict_of not_dict = raise (type_error "string indices must be integers")
dict_of (dict a) = ok a

pub Settles-dict_of {ℓ} : {A : Type ℓ} (e : Entry A) → Settles (dict_of e)
Settles-dict_of not_dict = Settles-raise _
Settles-dict_of (dict a) = Settles-ok a
