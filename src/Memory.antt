-- ===== src/Memory.antt =====
-- internal/memory/store_mem.go and history_mem.go: the stores in memory. The mutexes make each method
-- one step. Whether a text contains a query, letter case aside, is an argument.
pub mod Index
use sclaw.Prelude.{
  ℕ, zero, suc, ◌+◌, ◌-◌, String, Bool, true, false, ◌&&◌, ◌==◌, Option, none, some, List, [], ◌∷◌,
  ◌++◌, if◌then◌else◌, is_yes, String-discrete, length, leb, get_elem?, modify, take, drop,
}
use sclaw.Prelude.Dict.{Dict, lookup, insert, delete}
use sclaw.Provider.Types.{LlmMessage}

-- Fact
pub record Fact : Type 0 where
  pub id : String
  pub content : String
  pub source : String
  pub tags : List String
  pub metadata : Option (Dict String String)
  pub created_at : ℕ

-- InMemoryStore
pub record InMemoryStore : Type 0 where
  pub facts : List Fact
  pub index : Dict String ℕ

-- NewInMemoryStore
abbrev pub new_store : InMemoryStore
new_store = record { facts = []; index = [] }

-- Index
unfoldable pub index_fact : Fact → InMemoryStore → InMemoryStore
index_fact fact s = elim (lookup String-discrete fact.id s.index) [
  | some i ↦ record s { facts = modify s.facts i (λ _. fact) }
  | none ↦ record {
    facts = s.facts ++ fact ∷ [];
    index = insert String-discrete fact.id (length s.facts) s.index;
  }
]

-- The loop of Search, with the number of results that are still wanted.
unfoldable pub search_from : (String → Bool) → ℕ → List Fact → List Fact
search_from contains zero facts = []
search_from contains (suc n) [] = []
search_from contains (suc n) (f ∷ facts) =
    let rest = search_from contains (if contains f.content then n else suc n) facts in
    if contains f.content then f ∷ rest else rest

-- Search, of a query by its test and a number that is not negative.
unfoldable pub search : (String → Bool) → ℕ → InMemoryStore → List Fact
unfolding search_from
search contains top_k s = search_from contains top_k s.facts

abbrev same : String → String → Bool
same s t = is_yes (String-discrete s t)

-- `Metadata != nil && Metadata[key] == value`; a missing key reads as the empty text.
abbrev pub has_metadata : String → String → Fact → Bool
has_metadata key value f = elim f.metadata [
  | none ↦ false
  | some m ↦ same (elim (lookup String-discrete key m) [ none ↦ "" | some v ↦ v ]) value
]

unfoldable pub filter_facts : (Fact → Bool) → List Fact → List Fact
filter_facts test [] = []
filter_facts test (f ∷ facts) =
    let rest = filter_facts test facts in if test f then f ∷ rest else rest

-- SearchByMetadata
unfoldable pub search_by_metadata : String → String → InMemoryStore → List Fact
unfolding filter_facts
search_by_metadata key value s = filter_facts (has_metadata key value) s.facts

unfoldable pub swap_delete : String → ℕ → ℕ → Fact → InMemoryStore → InMemoryStore
swap_delete id i last f s = record {
  facts = take last (if i == last then s.facts else modify s.facts i (λ _. f));
  index =
      delete String-discrete id
        (if i == last then s.index else insert String-discrete f.id i s.index);
}

-- Delete: the last fact takes the place of the deleted one. None is the error ErrFactNotFound.
unfoldable pub delete_fact : String → InMemoryStore → Option InMemoryStore
unfolding swap_delete
delete_fact id s = elim (lookup String-discrete id s.index) [
  | none ↦ none
  | some i ↦
      let last = length s.facts - 1 in
      elim (get_elem? s.facts last) [ none ↦ none | some f ↦ some (swap_delete id i last f s) ]
]

-- Len
abbrev pub fact_count : InMemoryStore → ℕ
fact_count s = length s.facts

-- sessionData
pub record SessionData : Type 0 where
  pub messages : List LlmMessage
  pub summary : String

abbrev pub HistoryStore : Type 0
HistoryStore = Dict String SessionData

-- getOrCreate, whose session the caller then writes.
abbrev pub get_or_new : String → HistoryStore → SessionData
get_or_new id s = elim (lookup String-discrete id s) [
  | none ↦ record { messages = []; summary = "" }
  | some d ↦ d
]

-- Append
unfoldable pub append_message : String → LlmMessage → HistoryStore → HistoryStore
append_message id m s =
    let d = get_or_new id s in
    insert String-discrete id (record d { messages = d.messages ++ m ∷ [] }) s

-- GetRecent, of a number that is not negative.
unfoldable pub get_recent : String → ℕ → HistoryStore → List LlmMessage
get_recent id n s = elim (lookup String-discrete id s) [
  | none ↦ []
  | some d ↦
      if leb (length d.messages) n then d.messages else drop (length d.messages - n) d.messages
]

-- GetAll
unfoldable pub get_all : String → HistoryStore → List LlmMessage
get_all id s = (get_or_new id s).messages

-- SetSummary
unfoldable pub set_summary : String → String → HistoryStore → HistoryStore
set_summary id summary s =
    insert String-discrete id (record (get_or_new id s) { summary = summary }) s

-- GetSummary
unfoldable pub get_summary : String → HistoryStore → String
get_summary id s = (get_or_new id s).summary

-- Purge
unfoldable pub purge : String → HistoryStore → HistoryStore
purge id s = delete String-discrete id s

-- Len
unfoldable pub message_count : String → HistoryStore → ℕ
message_count id s = length (get_or_new id s).messages
