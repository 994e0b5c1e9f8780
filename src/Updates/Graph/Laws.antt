-- ===== src/Updates/Graph/Laws.antt =====
-- pkg/updates/file.go: what the sources of a graph satisfy.
use spicedb_operator.Base.{
  Bool-cases, In, List, Option-cases, Returns, String, [], at_head, at_tail, inl, inr, none, ok,
  refl, some, sym, true, ◌∙◌, ◌∷◌, ◌≡◌, ◌⊎◌,
}
use spicedb_operator.Base.Map.{get_or, lookup}
use spicedb_operator.Base.Text.{equal_fold}
use spicedb_operator.Base.Text.Fold.{SameFold, equal_fold_iff}
use spicedb_operator.Updates.Types.{Channel, UpdateGraph}
use spicedb_operator.Updates.Memory.{MemorySource}
use spicedb_operator.Updates.Memory.Validate.{
  IsSource, new_memory_source-IsSource, new_memory_source-Returns,
}
use spicedb_operator.Updates.Graph.{
  find_source, source_for_channel, find_default, default_channel_for_datastore, is_channel,
  is_default_for,
}

-- The channel has the name and is for the engine, up to the case of letters. The engine is that of
-- the channel's metadata, and empty if they name none.
abbrev pub Serves : String → String → Channel → Type 0
Serves engine channel c =
    SameFold c.name channel
    × (((o : String) × (lookup "datastore" c.metadata ≡ some o) × SameFold o engine)
        ⊎ ((lookup "datastore" c.metadata ≡ none) × SameFold "" engine))

-- The channel is the first of the list that serves.
abbrev pub FirstServing : String → String → Channel → List Channel → Type 0
FirstServing engine channel c [] = ⊥
FirstServing engine channel c (d ∷ cs) =
    ((d ≡ c) × Serves engine channel d)
    ⊎ ((¬ Serves engine channel d) × FirstServing engine channel c cs)

is_channel-Serves :
    (engine channel : String) (c : Channel)
    → is_channel engine channel c ≡ true
    → Serves engine channel c
unfolding is_channel get_or
is_channel-Serves engine channel c h = elim (Bool-cases (equal_fold c.name channel)) [
  | inr other ↦ cc (rw other at h)
  | inl name ↦ (
    (equal_fold_iff c.name channel).0 name,
    elim (Option-cases (lookup "datastore" c.metadata)) [
      | inl e ↦ inr (e, (equal_fold_iff "" engine).0 (rw (name, get_or, e) at h))
      | inr (o, e) ↦ inl (o, e, (equal_fold_iff o engine).0 (rw (name, get_or, e) at h))
    ],
  )
]

Serves-is_channel :
    (engine channel : String) (c : Channel)
    → Serves engine channel c
    → is_channel engine channel c ≡ true
unfolding is_channel get_or
Serves-is_channel engine channel c (name, inl (o, e, f)) =
    rw ((equal_fold_iff c.name channel).1 name, is_channel, get_or, e)
      ((equal_fold_iff o engine).1 f)
Serves-is_channel engine channel c (name, inr (e, f)) =
    rw ((equal_fold_iff c.name channel).1 name, is_channel, get_or, e)
      ((equal_fold_iff "" engine).1 f)

find_source_sound :
    (engine channel : String) (cs : List Channel) {m : MemorySource}
    → find_source engine channel cs ≡ ok m
    → (c : Channel) × FirstServing engine channel c cs
      × IsSource m
      × (m.ordered_nodes ≡ c.nodes)
      × (m.edges ≡ c.edges)
unfolding find_source
find_source_sound engine channel [] h = cc
find_source_sound engine channel (c ∷ cs) h = elim (Bool-cases (is_channel engine channel c)) [
  | inl found ↦
      let (valid, nodes, edges) = new_memory_source-IsSource c.nodes c.edges (rw found at h) in
      (c, inl (refl, is_channel-Serves engine channel c found), valid, nodes, edges)
  | inr other ↦
      let (d, first, valid, nodes, edges) = find_source_sound engine channel cs (rw other at h) in
      let skipped = Serves-is_channel engine channel c in
      (d, inr (λ serves. cc (sym (skipped serves) ∙ other), first), valid, nodes, edges)
]

-- A source that `SourceForChannel` returns is well-formed, and it is that of the first channel of the
-- graph that has the name and is for the engine, up to the case of letters.
pub source_for_channel_sound :
    (g : UpdateGraph) (engine channel : String) {m : MemorySource}
    → source_for_channel g engine channel ≡ ok m
    → (c : Channel) × FirstServing engine channel c g.channels
      × IsSource m
      × (m.ordered_nodes ≡ c.nodes)
      × (m.edges ≡ c.edges)
unfolding source_for_channel
source_for_channel_sound g engine channel h = find_source_sound engine channel g.channels h

pub source_for_channel-IsSource :
    (g : UpdateGraph) (engine channel : String) {m : MemorySource}
    → source_for_channel g engine channel ≡ ok m
    → IsSource m
source_for_channel-IsSource g engine channel h =
    let (_, _, valid, _, _) = source_for_channel_sound g engine channel h in valid

find_source-Returns :
    (engine channel : String) (cs : List Channel) → Returns (find_source engine channel cs)
unfolding find_source
find_source-Returns engine channel [] = tt
find_source-Returns engine channel (c ∷ cs) = elim (Bool-cases (is_channel engine channel c)) [
  | inl found ↦ rw found (new_memory_source-Returns c.nodes c.edges)
  | inr other ↦ rw other (find_source-Returns engine channel cs)
]

pub source_for_channel-Returns :
    (g : UpdateGraph) (engine channel : String) → Returns (source_for_channel g engine channel)
unfolding source_for_channel
source_for_channel-Returns g engine channel = find_source-Returns engine channel g.channels

find_default_sound :
    (datastore : String) (cs : List Channel) {name : String}
    → find_default datastore cs ≡ ok name
    → (c : Channel) × In c cs × (is_default_for datastore c ≡ true) × (c.name ≡ name)
unfolding find_default
find_default_sound datastore [] h = cc
find_default_sound datastore (c ∷ cs) h = elim (Bool-cases (is_default_for datastore c)) [
  | inl found ↦ (c, at_head refl, found, cc (rw found at h))
  | inr other ↦
      let (d, listed, found, name) = find_default_sound datastore cs (rw other at h) in
      (d, at_tail listed, found, name)
]

pub default_channel_for_datastore_sound :
    (g : UpdateGraph) (datastore : String) {name : String}
    → default_channel_for_datastore g datastore ≡ ok name
    → (c : Channel) × In c g.channels × (is_default_for datastore c ≡ true) × (c.name ≡ name)
unfolding default_channel_for_datastore
default_channel_for_datastore_sound g datastore h = find_default_sound datastore g.channels h

find_default-Returns :
    (datastore : String) (cs : List Channel) → Returns (find_default datastore cs)
unfolding find_default
find_default-Returns datastore [] = tt
find_default-Returns datastore (c ∷ cs) = elim (Bool-cases (is_default_for datastore c)) [
  | inl found ↦ rw found tt
  | inr other ↦ rw other (find_default-Returns datastore cs)
]

pub default_channel_for_datastore-Returns :
    (g : UpdateGraph) (datastore : String) → Returns (default_channel_for_datastore g datastore)
unfolding default_channel_for_datastore
default_channel_for_datastore-Returns g datastore = find_default-Returns datastore g.channels
