-- ===== src/Liveness/Update/Accesses.antt =====
-- An access of an object by the operation that is entered keeps what grows of the dependency graph.
use mathlib.Core.Option.{some-injective}
use ten_prof.Prelude.{
  ℕ, ◌<◌, ◌≡◌, subst, Bool, true, false, some, List, [], ◌∷◌, ◌++◌, arith, Option-cases, inl, inr,
  All, All-mono, All-append, contains,
}
use ten_prof.Common.Map.{Map, find, has, assign, u64_key}
use ten_prof.Common.Map.Entries.{All-assign}
use ten_prof.Liveness.{AccessType, read, write, GraphNode, Dependencies, edge_key}
use ten_prof.Liveness.Update.{users_of, access_object}
use ten_prof.Liveness.Update.Rising.{
  IsPast, IsGrown, IsPast-mono, contains-cons, contains_head, All-find, depend-IsGrown, AreEarlier,
  depend_readers-IsGrown, own-IsGrown,
}

module _ (followed : Bool) (op : ℕ) where
  -- What stands for an object that is not touched is an earlier node.
  earlier :
      (t : Bool) (nodes : Map ℕ GraphNode) (o : ℕ)
      → t ≡ false
      → IsPast t op nodes o
      → (o < op) × (has o nodes ≡ true)
  earlier t nodes o new (node, le, inl old) = cc
  earlier t nodes o new (node, le, inr lt) = (lt, node)

  pub users-AreEarlier :
      (t : Bool) (nodes : Map ℕ GraphNode) (owner : ℕ) (rs : List ℕ)
      → t ≡ false
      → IsPast t op nodes owner
      → All (IsPast t op nodes) rs
      → AreEarlier followed op nodes (users_of owner rs)
  unfolding users_of
  users-AreEarlier t nodes owner [] new o h = (earlier t nodes owner new o, tt)
  users-AreEarlier t nodes owner (r ∷ rs) new o h =
      All-mono _ _ (r ∷ rs) (λ i past. earlier t nodes i new past) h

  -- A read notes the operation as a reader.
  read-IsGrown :
      (touched : List ℕ) (obj : ℕ) (rs : List ℕ) (d : Dependencies)
      → IsGrown followed touched op d
      → All (IsPast (contains obj touched) op d.graph.nodes) rs
      → IsGrown followed
          (obj ∷ touched)
          op
          (record d { read_nodes = assign obj (rs ++ op ∷ []) d.read_nodes })
  read-IsGrown touched obj rs d v h = record {
    graph = v.graph;
    current = v.current;
    bound = v.bound;
    streams = v.streams;
    owners =
        All-mono _ _ d.obj_ownership_map
          (λ e h. IsPast-mono _ _ op d.graph.nodes e.1 (contains-cons e.0 obj touched) h) v.owners;
    readers =
        All-assign _ obj (rs ++ op ∷ []) d.read_nodes
          (λ j same.
            let flag =
              subst (λ i. contains i (obj ∷ touched) ≡ true) same (contains_head obj touched) in
            All-append _ rs (op ∷ []) (All-mono _ _ rs (λ r past. (past.0, past.1, inl flag)) h)
              ((v.current, omega arith, inl flag), tt))
          (All-mono _ _ d.read_nodes
            (λ e h.
              All-mono _ _ e.1
                (λ r past. IsPast-mono _ _ op d.graph.nodes r (contains-cons e.0 obj touched) past)
                h)
            v.readers);
  }

  -- An access of an object that the operation has not touched yet.
  pub access_object-IsGrown :
      (touched : List ℕ) (obj : ℕ) (access : AccessType) (d d' : Dependencies)
      → IsGrown followed touched op d
      → contains obj touched ≡ false
      → access_object op obj access d ≡ some d'
      → IsGrown followed (obj ∷ touched) op d'
  unfolding access_object
  access_object-IsGrown touched obj access d d' v new e =
      elim (Option-cases (find obj d.read_nodes)) [
        | inl missing ↦ cc (rw (missing, access_object) at e)
        | inr (rs, found) ↦ elim (Option-cases (find obj d.obj_ownership_map)) [
          | inl missing ↦ cc (rw (found, missing, access_object) at e)
          | inr (owner, owned) ↦
              let readers = All-find _ obj rs d.read_nodes v.readers found in
              let past = All-find _ obj owner d.obj_ownership_map v.owners owned in
              elim access
                  as (λ a.
                    access_object op obj a d ≡ some d' → IsGrown followed (obj ∷ touched) op d') [
                      | read ↦ λ e'.
                          let noted = read-IsGrown touched obj rs d v readers in
                          let own = earlier (contains obj touched) d.graph.nodes owner new past in
                          subst (IsGrown followed (obj ∷ touched) op)
                            (some-injective _ _ (rw (found, owned, access_object) at e'))
                            (depend-IsGrown followed op (obj ∷ touched) owner obj read _ noted own.0
                              own.1)
                      | write ↦ λ e'.
                          let users =
                            users-AreEarlier (contains obj touched) d.graph.nodes owner rs new past
                              readers in
                          subst (IsGrown followed (obj ∷ touched) op)
                            (some-injective _ _ (rw (found, owned, access_object) at e'))
                            (own-IsGrown followed op touched obj _ (
                              depend_readers-IsGrown followed op touched obj write
                                (users_of owner rs) d v users))
                    ]
                e
        ]
      ]
