-- ===== src/Console/Files/Printing.antt =====
-- engine/cvar/Console.cpp: the table that `SaveCvarsToml` prints, as `LoadCvarsToml` reads it.
use mathlib.Core.Option
use voxhammer.Console.Registry.{Console}
use voxhammer.Console.Files.{
  CvarHost, texts, root_of, read_entries, read_cvars, read_entry, table_at, read_table,
  saved_entries,
}
use voxhammer.Console.Files.Entries.{or_else, or_else-none, saved_entries-IsSorted}
use voxhammer.Base.{
  inr, text_eq_iff, refl, inl, Bool-cases, ap, find-try_emplace, none, if◌then◌else◌, some, ◌∙◌,
  sym, text_eq, try_emplace-IsSorted, ◌≡◌, [], find, try_emplace, ◌∷◌, Text, List, Option, IsSorted,
  IsAbove, codes,
}

kept_first :
    (o : Option Text) (v : Text) (later : Option Text)
    → or_else (some (Option.get_or o v)) later ≡ or_else o (some v)
unfolding or_else
kept_first none v later = refl
kept_first (some w) v later = refl

emplaced :
    (k j v : Text) (kv : List (Text × Text)) (later : Option Text)
    → or_else (if text_eq k j then some (Option.get_or (find k kv) v) else find j kv) later
      ≡ or_else (find j kv) (if text_eq k j then some v else later)
unfolding or_else
emplaced k j v kv later = elim (Bool-cases (text_eq k j)) [
  | inl e ↦
      let names : k ≡ j = (text_eq_iff k j).0 e in rw (e, names) (kept_first (find j kv) v later)
  | inr e ↦ rw e refl
]

module _ (host : CvarHost) where
  texts-IsAbove : (k : Text) (kvs : List (Text × Text)) → IsAbove k kvs → IsAbove k (texts host kvs)
  unfolding texts
  texts-IsAbove k [] a = tt
  texts-IsAbove k ((j, v) ∷ kvs) (b, a) = (b, texts-IsAbove k kvs a)

  texts-IsSorted : (kvs : List (Text × Text)) → IsSorted kvs → IsSorted (texts host kvs)
  unfolding texts
  texts-IsSorted [] s = tt
  texts-IsSorted ((j, v) ∷ kvs) (a, s) = (texts-IsAbove j kvs a, texts-IsSorted kvs s)

  read_entries-texts :
      (k v : Text) (kvs kv : List (Text × Text))
      → read_entries host (texts host ((k, v) ∷ kvs)) kv
        ≡ read_entries host (texts host kvs) (try_emplace k v kv)
  unfolding read_entries read_entry texts
  read_entries-texts k v kvs kv =
      ap (λ o. read_entries host (texts host kvs) (read_entry host k o kv))
        (host.as_text-text_node v)

  -- The entries that are read from the printed ones.
  find-read_entries :
      (kvs kv : List (Text × Text)) (j : Text)
      → IsSorted kv
      → find j (read_entries host (texts host kvs) kv) ≡ or_else (find j kv) (find j kvs)
  unfolding read_entries read_entry texts find
  find-read_entries [] kv j s = sym (or_else-none (find j kv))
  find-read_entries ((k, v) ∷ kvs) kv j s =
      (ap (find j) (read_entries-texts k v kvs kv))
      ∙ (find-read_entries kvs (try_emplace k v kv) j (try_emplace-IsSorted k v kv s)
          ∙ rw (find-try_emplace k j v kv s) (emplaced k j v kv (find j kvs)))

  read_entries-IsSorted :
      (kvs kv : List (Text × Text)) → IsSorted kv → IsSorted (read_entries host (texts host kvs) kv)
  unfolding read_entries texts
  read_entries-IsSorted [] kv s = s
  read_entries-IsSorted ((k, v) ∷ kvs) kv s =
      rw (read_entries-texts k v kvs kv)
        (read_entries-IsSorted kvs (try_emplace k v kv) (try_emplace-IsSorted k v kv s))

  table_at-root_of :
      {F : Type 0} (con : Console F)
      → table_at host (codes "cvars") (root_of host con)
        ≡ some (host.make_table (texts host (saved_entries con)))
  unfolding table_at root_of Option.bind find text_eq
  table_at-root_of con =
      ap (λ o. Option.bind o host.as_table) (host.look_up-make_table _ (codes "cvars"))
      ∙ host.as_table-table_node (host.make_table (texts host (saved_entries con)))

  pub find-read_cvars :
      {F : Type 0} (con : Console F) (j : Text)
      → find j (read_cvars host (root_of host con)) ≡ find j (saved_entries con)
  unfolding read_cvars read_table or_else find
  find-read_cvars con j =
      let sorted = texts-IsSorted (saved_entries con) (saved_entries-IsSorted con) in
      rw (table_at-root_of con, host.entries-make_table (texts host (saved_entries con)) sorted)
        (find-read_entries (saved_entries con) [] j tt)

  pub read_cvars-IsSorted :
      {F : Type 0} (con : Console F) → IsSorted (read_cvars host (root_of host con))
  unfolding read_cvars read_table
  read_cvars-IsSorted con =
      let sorted = texts-IsSorted (saved_entries con) (saved_entries-IsSorted con) in
      rw (table_at-root_of con, host.entries-make_table (texts host (saved_entries con)) sorted)
        (read_entries-IsSorted (saved_entries con) [] tt)
