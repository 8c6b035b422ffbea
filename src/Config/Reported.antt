-- ===== src/Config/Reported.antt =====
-- internal/config/strict.go: which keys `checkUnknownKeys` reports.
use dk_agent_memory.Config.Distance.{dotted}
use dk_agent_memory.Config.Unknown.{
  Typ, Node, document, object, sequence, scalar, alias, Nodes, no_nodes, nodes, line_of, value_of,
  UnknownKey, reported, keys_of, field_type, struct_fields, behind_pointers, check_field,
  check_unknown_keys, check_pairs,
}
use dk_agent_memory.Base.{
  ℕ, ◌≡◌, refl, ◌≢◌, inl, inr, Option, none, some, List, [], ◌∷◌, ◌++◌, Member, Member-append_left,
  Member-append_right, Member-split, Text, here, there,
}

mutual
  -- The keys that lead down to a key of the document, that key last, and its line.
  pub data Occurs : Node → List Text → ℕ → Type 0 where
    at_root :
        {root : Node} {rest : Nodes} {ks : List Text} {l : ℕ}
        → Occurs root ks l
        → Occurs (document (nodes root rest)) ks l
    in_object :
        {line : ℕ} {children : Nodes} {ks : List Text} {l : ℕ}
        → OccursIn children ks l
        → Occurs (object line children) ks l

  pub data OccursIn : Nodes → List Text → ℕ → Type 0 where
    this_key :
        {key value : Node} {rest : Nodes}
        → OccursIn (nodes key (nodes value rest)) (value_of key ∷ []) (line_of key)
    below_key :
        {key value : Node} {rest : Nodes} {ks : List Text} {l : ℕ}
        → Occurs value ks l
        → OccursIn (nodes key (nodes value rest)) (value_of key ∷ ks) l
    later_key :
        {key value : Node} {rest : Nodes} {ks : List Text} {l : ℕ}
        → OccursIn rest ks l
        → OccursIn (nodes key (nodes value rest)) ks l

-- Each of the keys but the last names a field of the struct that the ones before it lead to, and the
-- last does not, though it stands in a struct.
pub data Misses : Option (List (Text × Typ)) → List Text → Type 0 where
  last_key :
      {known : List (Text × Typ)} (k : Text)
      → field_type k known ≡ none
      → Misses (some known) (k ∷ [])
  next_key :
      {known : List (Text × Typ)} (k : Text) (t : Typ) {ks : List Text}
      → field_type k known ≡ some t
      → Misses (struct_fields (behind_pointers t)) ks
      → Misses (some known) (k ∷ ks)

abbrev pub keys_at : Typ → Option (List (Text × Typ))
keys_at t = struct_fields (behind_pointers t)

abbrev pub dotted_all : Text → List Text → Text
dotted_all path [] = path
dotted_all path (k ∷ ks) = dotted_all (dotted path k) ks

-- A report of the key that `ks` leads to.
abbrev pub Names : Text → List Text → ℕ → UnknownKey → Type 0
Names path ks l r = (r.path ≡ dotted_all path ks) × (r.line ≡ l)

-- The reports name an occurrence that misses, `found` saying where it occurs.
abbrev pub IsMissed :
    (List Text → ℕ → Type 0) → Option (List (Text × Typ)) → Text → UnknownKey → Type 0
IsMissed found known path r =
    (ks : List Text) × (l : ℕ) × found ks l × Misses known ks × Names path ks l r

IsMissed-field :
    (key value : Node) (rest : Nodes) (known : List (Text × Typ)) (path : Text) (r : UnknownKey)
    (o : Option Typ)
    → field_type (value_of key) known ≡ o
    → ((t : Typ)
        → Member r (check_unknown_keys value t (dotted path (value_of key)))
        → IsMissed (Occurs value) (keys_at t) (dotted path (value_of key)) r)
    → Member r (check_field key known path o (check_unknown_keys value))
    → IsMissed (OccursIn (nodes key (nodes value rest))) (some known) path r
IsMissed-field key value rest known path r none e down here =
    (value_of key ∷ [], line_of key, this_key, last_key (value_of key) e, (refl, refl))
IsMissed-field key value rest known path r none e down (there m) = elim m [ ]
IsMissed-field key value rest known path r (some t) e down m =
    let (ks, l, o, miss, names) = down t m in
    (value_of key ∷ ks, l, below_key o, next_key (value_of key) t e miss, names)

mutual
  unfolding check_unknown_keys check_pairs

  IsMissed-node :
      (n : Node) (t : Typ) (path : Text) (r : UnknownKey)
      → Member r (check_unknown_keys n t path)
      → IsMissed (Occurs n) (keys_at t) path r
  IsMissed-node (document no_nodes) t path r m = elim m [ ]
  IsMissed-node (sequence line) t path r m = elim m [ ]
  IsMissed-node (scalar line value) t path r m = elim m [ ]
  IsMissed-node (alias line value) t path r m = elim m [ ]
  IsMissed-node (document (nodes root rest)) t path r m =
      let (ks, l, o, miss, names) = IsMissed-node root t path r m in (ks, l, at_root o, miss, names)
  IsMissed-node (object line children) t path r m =
      let (ks, l, o, miss, names) = IsMissed-pairs children (keys_at t) path r m in
      (ks, l, in_object o, miss, names)

  IsMissed-pairs :
      (ns : Nodes) (known : Option (List (Text × Typ))) (path : Text) (r : UnknownKey)
      → Member r (check_pairs ns known path)
      → IsMissed (OccursIn ns) known path r
  IsMissed-pairs ns none path r m = elim m [ ]
  IsMissed-pairs no_nodes (some known) path r m = elim m [ ]
  IsMissed-pairs (nodes key no_nodes) (some known) path r m = elim m [ ]
  IsMissed-pairs (nodes key (nodes value rest)) (some known) path r m =
      elim (Member-split
        (check_field key known path (field_type (value_of key) known) (check_unknown_keys value)) _
        m) [
          | inl h ↦
              IsMissed-field key value rest known path r (field_type (value_of key) known) refl
                (λ t. IsMissed-node value t (dotted path (value_of key)) r) h
          | inr h ↦
              let (ks, l, o, miss, names) = IsMissed-pairs rest (some known) path r h in
              (ks, l, later_key o, miss, names)
        ]

-- The occurrence has a report.
abbrev pub HasReport : Text → List Text → ℕ → List UnknownKey → Type 0
HasReport path ks l rs = (r : UnknownKey) × Member r rs × Names path ks l r

abbrev pub field_report : Node → Node → List (Text × Typ) → Text → List UnknownKey
field_report key value known path =
    check_field key known path (field_type (value_of key) known) (check_unknown_keys value)

mutual
  never_empty : (n : Node) (l : ℕ) → Occurs n [] l → ⊥
  never_empty (document (nodes root rest)) l (at_root o) = never_empty root l o
  never_empty (object line children) l (in_object o) = never_empty_pairs children l o
  never_empty (document no_nodes) l o = elim o [ ]
  never_empty (sequence line) l o = elim o [ ]
  never_empty (scalar line value) l o = elim o [ ]
  never_empty (alias line value) l o = elim o [ ]

  never_empty_pairs : (ns : Nodes) (l : ℕ) → OccursIn ns [] l → ⊥
  never_empty_pairs (nodes key (nodes value rest)) l (later_key o) = never_empty_pairs rest l o
  never_empty_pairs (nodes key no_nodes) l o = elim o [ ]
  never_empty_pairs no_nodes l o = elim o [ ]

Misses-something : (known : Option (List (Text × Typ))) (ks : List Text) → Misses known ks → ks ≢ []
Misses-something _ _ (last_key k e) h = cc
Misses-something _ _ (next_key k t e miss) h = cc

HasReport-rest :
    (path : Text) (ks : List Text) (l : ℕ) (rs more : List UnknownKey)
    → HasReport path ks l more
    → HasReport path ks l (rs ++ more)
HasReport-rest path ks l rs more (r, m, names) = (r, Member-append_right rs more m, names)

HasReport-first :
    (path : Text) (ks : List Text) (l : ℕ) (rs more : List UnknownKey)
    → HasReport path ks l rs
    → HasReport path ks l (rs ++ more)
HasReport-first path ks l rs more (r, m, names) = (r, Member-append_left rs more m, names)

mutual
  unfolding check_unknown_keys check_pairs

  HasReport-node :
      (n : Node) (t : Typ) (path : Text) (ks : List Text) (l : ℕ)
      → Occurs n ks l
      → Misses (keys_at t) ks
      → HasReport path ks l (check_unknown_keys n t path)
  HasReport-node (document no_nodes) t path ks l o miss = elim o [ ]
  HasReport-node (sequence line) t path ks l o miss = elim o [ ]
  HasReport-node (scalar line value) t path ks l o miss = elim o [ ]
  HasReport-node (alias line value) t path ks l o miss = elim o [ ]
  HasReport-node (document (nodes root rest)) t path ks l (at_root o) miss =
      HasReport-node root t path ks l o miss
  HasReport-node (object line children) t path ks l (in_object o) miss =
      HasReport-pairs children (keys_at t) path ks l o miss

  HasReport-pairs :
      (ns : Nodes) (known : Option (List (Text × Typ))) (path : Text) (ks : List Text) (l : ℕ)
      → OccursIn ns ks l
      → Misses known ks
      → HasReport path ks l (check_pairs ns known path)
  HasReport-pairs (nodes key (nodes value rest)) (some known) path _ _ this_key (last_key _ e) =
      HasReport-first path (value_of key ∷ []) (line_of key) (field_report key value known path) _
        (rw e (reported (value_of key) (keys_of known) path (line_of key), here, (refl, refl)))
  HasReport-pairs (nodes key (nodes value rest)) (some known) path _ _ this_key
        (next_key _ t e miss) =
      absurd (Misses-something (keys_at t) [] miss refl)
  HasReport-pairs (nodes key (nodes value rest)) (some known) path _ l (below_key o)
        (last_key _ e) =
      absurd (never_empty value l o)
  HasReport-pairs (nodes key (nodes value rest)) (some known) path _ l (below_key {ks} o)
        (next_key _ t e miss) =
      HasReport-first path (value_of key ∷ ks) l (field_report key value known path) _
        (rw e (HasReport-node value t (dotted path (value_of key)) ks l o miss))
  HasReport-pairs (nodes key (nodes value rest)) (some known) path ks l (later_key o) miss =
      HasReport-rest path ks l (field_report key value known path) _
        (HasReport-pairs rest (some known) path ks l o miss)
  HasReport-pairs ns none path ks l o miss = elim miss [ ]
  HasReport-pairs (nodes key no_nodes) known path ks l o miss = elim o [ ]
  HasReport-pairs no_nodes known path ks l o miss = elim o [ ]

-- Against a struct, exactly the keys that it has no field for are reported, each under its dotted
-- path and with its line: a key of the document is reported where the keys above it name fields of
-- the structs that they lead to and it names none of its own, and every report is of such a key.
pub check_unknown_keys-Misses :
    (n : Node) (t : Typ)
    → ((r : UnknownKey)
        → Member r (check_unknown_keys n t [])
        → IsMissed (Occurs n) (keys_at t) [] r)
      × ((ks : List Text) (l : ℕ)
          → Occurs n ks l
          → Misses (keys_at t) ks
          → HasReport [] ks l (check_unknown_keys n t []))
check_unknown_keys-Misses n t = (IsMissed-node n t [], HasReport-node n t [])
