-- ===== src/Connect/Servers.antt =====
-- internal/connect/writers.go: dkm among the servers of an agent's configuration.
use dk_agent_memory.Connect.Json.{
  object, Members, no_members, member, member_of, with_member, without_member, as_object,
  or_no_members, in_child,
}
use dk_agent_memory.Connect.Agents.{
  Format, server_name, servers_key, server_entry, add_server, remove_server,
}
use dk_agent_memory.Connect.Entries.{member_of-with_member, member_of-with_other}
use dk_agent_memory.Base.{
  ◌≡◌, refl, ◌∙◌, inl, inr, false, none, some, Bool-cases, Text, text_eq, text_eq_iff,
}

member_of-without_member :
    (key : Text) (ms : Members) → member_of key (without_member key ms) ≡ none
unfolding member_of without_member
member_of-without_member key no_members = refl
member_of-without_member key (member k v ms) = elim (Bool-cases (text_eq key k)) [
  | inl e ↦ rw e (member_of-without_member key ms)
  | inr e ↦ rw (e, e) (member_of-without_member key ms)
]

member_of-without_other :
    (key other : Text) (ms : Members)
    → text_eq key other ≡ false
    → member_of key (without_member other ms) ≡ member_of key ms
unfolding member_of without_member
member_of-without_other key other no_members ne = refl
member_of-without_other key other (member k v ms) ne = elim (Bool-cases (text_eq other k)) [
  | inl e ↦
      let same : other ≡ k = (text_eq_iff other k).0 e in
      rw (e, ← same, ne) (member_of-without_other key other ms ne)
  | inr e ↦ elim (Bool-cases (text_eq key k)) [
    | inl f ↦ rw (e, f) refl
    | inr f ↦ rw (e, f) (member_of-without_other key other ms ne)
  ]
]

module _ (format : Format) where
  abbrev pub servers_of : Members → Members
  servers_of root = or_no_members (as_object (member_of (servers_key format) root))

  -- One document has the other's members, but for dkm among the servers.
  pub record SameButDkm (before after : Members) : Type 0 where
    pub servers :
        (name : Text)
        → text_eq name server_name ≡ false
        → member_of name (servers_of after) ≡ member_of name (servers_of before)
    pub others :
        (key : Text)
        → text_eq key (servers_key format) ≡ false
        → member_of key after ≡ member_of key before

  module _ (binary : Text) (root : Members) where
    added : Members
    added = with_member server_name (server_entry format binary) (servers_of root)

    member_of-add_server :
        member_of (servers_key format) (add_server format binary root) ≡ some (object added)
    unfolding add_server in_child added
    member_of-add_server = member_of-with_member (servers_key format) (object added) root

    add_server-SameButDkm : SameButDkm root (add_server format binary root)
    unfolding added
    add_server-SameButDkm = record {
      servers = λ name ne.
          rw member_of-add_server (
            member_of-with_other name server_name (server_entry format binary) (servers_of root)
              ne);
      others = λ key ne. other_member key ne;
    }
      where
        other_member :
            (key : Text)
            → text_eq key (servers_key format) ≡ false
            → member_of key (add_server format binary root) ≡ member_of key root
        other_member key ne =
            unfold add_server in
            unfold in_child in member_of-with_other key (servers_key format) (object added) root ne

    member_of-remove_server :
        member_of (servers_key format) (remove_server format (add_server format binary root))
        ≡ some (object (without_member server_name added))
    unfolding remove_server
    member_of-remove_server = rw (member_of-add_server) (
        member_of-with_member (servers_key format) (object (without_member server_name added))
          (add_server format binary root))

    remove_server-other :
        (key : Text)
        → text_eq key (servers_key format) ≡ false
        → member_of key (remove_server format (add_server format binary root)) ≡ member_of key root
    unfolding remove_server
    remove_server-other key ne = rw (member_of-add_server) (
        member_of-with_other key (servers_key format) (object (without_member server_name added))
          (add_server format binary root) ne
        ∙ add_server-SameButDkm.others key ne)

    remove_server-server :
        (name : Text)
        → text_eq name server_name ≡ false
        → member_of name (servers_of (remove_server format (add_server format binary root)))
          ≡ member_of name (servers_of root)
    unfolding added
    remove_server-server name ne = rw member_of-remove_server (
        member_of-without_other name server_name added ne
        ∙ member_of-with_other name server_name (server_entry format binary) (servers_of root) ne)

    found :
        member_of server_name (servers_of (add_server format binary root))
        ≡ some (server_entry format binary)
    unfolding added
    found =
        rw member_of-add_server
          (member_of-with_member server_name (server_entry format binary) (servers_of root))

    gone :
        member_of server_name (servers_of (remove_server format (add_server format binary root)))
        ≡ none
    gone = rw member_of-remove_server (member_of-without_member server_name added)

-- Connecting an agent adds dkm to its servers and disconnecting takes it out again; both leave every
-- other server and every other member of the document as they were.
pub remove_server-add_server :
    (format : Format) (binary : Text) (root : Members)
    → (member_of server_name (servers_of format (add_server format binary root))
        ≡ some (server_entry format binary))
      × SameButDkm format root (add_server format binary root)
      × (member_of server_name
            (servers_of format (remove_server format (add_server format binary root)))
          ≡ none)
      × SameButDkm format root (remove_server format (add_server format binary root))
remove_server-add_server format binary root = (
  found format binary root,
  add_server-SameButDkm format binary root,
  gone format binary root,
  record {
    servers = remove_server-server format binary root;
    others = remove_server-other format binary root;
  },
)
