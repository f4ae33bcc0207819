-- ===== src/Examples/Memory.antt =====
-- Runs of internal/memory/store_mem.go.
use sclaw.Prelude.{String, ◌≡◌, ◌≢◌, refl, none, some, [], ◌∷◌, ◌⊎◌, String-discrete}
use sclaw.Prelude.Dict.{lookup, insert, delete}
use sclaw.Memory.{Fact, InMemoryStore, new_store, index_fact, delete_fact}
use sclaw.Memory.Index.{Indexed, Holds, store-Indexed, new_store-Indexed}

abbrev note : String → Fact
note id = record {
  id = id;
  content = "tea";
  source = "s1";
  tags = [];
  metadata = none;
  created_at = 1;
}

abbrev notes : InMemoryStore
notes = index_fact (note "c") (index_fact (note "b") (index_fact (note "a") new_store))

delete_run :
    delete_fact "a" notes
    ≡ some (record {
      facts = note "c" ∷ note "b" ∷ [];
      index = record { key = "b"; value = 1 } ∷ record { key = "c"; value = 0 } ∷ [];
    })
unfolding delete_fact index_fact lookup insert delete String-discrete
delete_run = refl

abbrev one_note : InMemoryStore
one_note = index_fact (note "a") new_store

one_note-Indexed : Indexed one_note
one_note-Indexed = (store-Indexed new_store new_store-Indexed).0 (note "a")

store-Indexed_example :
    ((f : Fact) → Indexed (index_fact f one_note))
    × ((id : String)
        → ((delete_fact id one_note ≡ none) × ((g : Fact) → Holds one_note.facts g → g.id ≢ id))
          ⊎ ((t : InMemoryStore) × (delete_fact id one_note ≡ some t)
              × Indexed t
              × ((g : Fact)
                  → (Holds t.facts g → Holds one_note.facts g × (g.id ≢ id))
                    × (Holds one_note.facts g → g.id ≢ id → Holds t.facts g))))
store-Indexed_example = store-Indexed one_note one_note-Indexed
