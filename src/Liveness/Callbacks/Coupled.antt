-- ===== src/Liveness/Callbacks/Coupled.antt =====
-- The memories that the analysis holds live are those of the registry: the composition of
-- redshow_memory_register and redshow_memory_unregister with the calls of `op_callback` that they make.
use mathlib.Core.Option.{some-injective}
use ten_prof.Prelude.{
  ℕ, suc, ◌≤◌, ◌≡◌, refl, sym, ◌∙◌, subst, false, Option, some, List, [], ◌∷◌, arith, Bool-cases,
  inl, inr, ◌>>=◌,
}
use ten_prof.Common.Map.{find, has, assign, erase, IsSorted, u64_key}
use ten_prof.Common.Map.Laws.{assign-IsSortedFrom, erase-IsSortedFrom}
use ten_prof.Operation.{
  Memory, Memfree, new_memory, new_memfree, memory, memfree, Operation, AnalysisType,
  memory_liveness, Event, op_callbacks, Status, range_key,
}
use ten_prof.Redshow.Registry.{MemoryMap, Registry, memory_register, memory_unregister}
use ten_prof.Redshow.Registry.Live.{live, basis}
use ten_prof.Redshow.Registry.Calls.{memory_register_outcome, memory_unregister_outcome}
use ten_prof.Liveness.{Liveness}
use ten_prof.Liveness.Update.Entered.{IsBelow}
use ten_prof.Liveness.Callbacks.{memory_op_callback, op_callback}
use ten_prof.Liveness.Graph.{has_node}
use ten_prof.Liveness.Callbacks.Copied.{IsBelow-mono}
use ten_prof.Liveness.Callbacks.Kept.{next_bound, op_callback-IsBelow}
use ten_prof.Liveness.Callbacks.Held.{IsHeld, allocated-IsHeld}
use ten_prof.Liveness.Callbacks.Released.{freed-IsHeld}
use ten_prof.Redshow.Registry.Seen.{IsSeen, assign-IsSeen, live-basis}

-- The calls of the analysis that a call of the registry makes.
unfoldable pub notify : List Event → Liveness → Option Liveness
notify [] l = some l
notify (e ∷ es) l = op_callback e.operation e.is_submemory [] [] l >>= notify es

-- The registry and the analysis between two calls, the next of which has an id from `b` on.
pub record IsCoupled (b : ℕ) (r : Registry) (l : Liveness) : Type 0 where
  pub sorted : IsSorted r.memory_snapshot
  pub map : MemoryMap
  pub sorted_map : IsSorted map
  pub seen : IsSeen b r.memory_snapshot map
  pub held : IsHeld map l
  pub below : IsBelow b l.dependencies

-- A call that changes nothing keeps the coupling for later calls.
IsCoupled-mono :
    (b h : ℕ) (r : Registry) (l : Liveness) → b ≤ h → IsCoupled b r l → IsCoupled (suc h) r l
IsCoupled-mono b h r l le v = record {
  sorted = v.sorted;
  map = v.map;
  sorted_map = v.sorted_map;
  seen = record {
    keys = λ j there. omega (arith, v.seen.keys j there, le);
    seen = λ k above. v.seen.seen k (omega arith);
  };
  held = v.held;
  below = IsBelow-mono b (suc h) l.dependencies (omega arith) v.below;
}

-- What a call of the registry, with its calls of the analysis, leads to.
abbrev pub IsFollowed : ℕ → Liveness → Status × Registry × List Event → Type 0
IsFollowed b l result = (l' : Liveness) × (notify result.2 l ≡ some l') × IsCoupled b result.1 l'

notify_one :
    (op : Operation) (l l' : Liveness)
    → op_callback op false [] [] l ≡ some l'
    → notify (op_callbacks (memory_liveness ∷ []) op false) l ≡ some l'
unfolding notify op_callbacks
notify_one op l l' e = rw e refl

notified :
    (op : Operation) (l l' : Liveness) {enabled : List AnalysisType}
    → enabled ≡ memory_liveness ∷ []
    → op_callback op false [] [] l ≡ some l'
    → notify (op_callbacks enabled op false) l ≡ some l'
notified op l l' alone returns =
    subst (λ en. notify (op_callbacks en op false) l ≡ some l') (sym alone)
      (notify_one op l l' returns)

fresh_node :
    (b h : ℕ) (l : Liveness)
    → b ≤ h
    → IsBelow b l.dependencies
    → has_node h l.dependencies.graph ≡ false
unfolding has_node
fresh_node b h l le v = elim (Bool-cases (has h l.dependencies.graph.nodes)) [
  | inl old ↦ absurd (omega (arith, v.bound h old, le))
  | inr new ↦ new
]

registered-IsCoupled :
    (b h : ℕ) (mem : Memory) (m : MemoryMap) (r : Registry) (l : Liveness)
    → b ≤ h
    → mem.op_id ≡ h
    → IsCoupled b r l
    → basis h r.memory_snapshot ≡ some m
    → has mem.memory_range m ≡ false
    → (l' : Liveness) × (op_callback (memory mem) false [] [] l ≡ some l')
      × IsCoupled
          (suc h)
          (record r {
            memory_snapshot = assign h (assign mem.memory_range mem m) r.memory_snapshot;
          })
          l'
unfolding op_callback
registered-IsCoupled b h mem m r l le id v found new =
    let same : v.map ≡ m = some-injective v.map m (sym (v.seen.seen h le) ∙ found) in
    let held = subst (λ x. IsHeld x l) same v.held in
    let sorted = subst (λ (x : MemoryMap). IsSorted x) same v.sorted_map in
    (
      memory_op_callback mem false [] [] l,
      refl,
      record {
        sorted = assign-IsSortedFrom 0 h _ r.memory_snapshot (omega arith) v.sorted;
        map = assign mem.memory_range mem m;
        sorted_map = assign-IsSortedFrom 0 mem.memory_range mem m (omega arith) sorted;
        seen = assign-IsSeen b h v.map _ r.memory_snapshot v.sorted le v.seen;
        held =
            allocated-IsHeld mem m l held new
              (fresh_node b mem.op_id l (omega (arith, le, id)) v.below);
        below =
            subst (λ i. IsBelow (suc i) (memory_op_callback mem false [] [] l).dependencies) id
              (unfold next_bound in
                (op_callback-IsBelow b (memory mem) false [] [] l _ (omega (arith, le, id)) v.below
                  refl));
      },
    )

unregistered-IsCoupled :
    (b h : ℕ) (free : Memfree) (m : MemoryMap) (mem : Memory) (r : Registry) (l : Liveness)
    → b ≤ h
    → free.op_id ≡ h
    → IsCoupled b r l
    → live h r.memory_snapshot ≡ some m
    → find free.memory_range m ≡ some mem
    → (l' : Liveness) × (op_callback (memfree free) false [] [] l ≡ some l')
      × IsCoupled
          (suc h)
          (record r { memory_snapshot = assign h (erase free.memory_range m) r.memory_snapshot })
          l'
unfolding op_callback
unregistered-IsCoupled b h free m mem r l le id v found there =
    let same : v.map ≡ m =
      some-injective v.map m (sym (v.seen.seen h le) ∙ live-basis h r.memory_snapshot m found) in
    let held = subst (λ x. IsHeld x l) same v.held in
    let sorted = subst (λ (x : MemoryMap). IsSorted x) same v.sorted_map in
    let (l', returns, left) = freed-IsHeld free m mem l held sorted there in
    (
      l',
      returns,
      record {
        sorted = assign-IsSortedFrom 0 h _ r.memory_snapshot (omega arith) v.sorted;
        map = erase free.memory_range m;
        sorted_map = erase-IsSortedFrom 0 free.memory_range m sorted;
        seen = assign-IsSeen b h v.map _ r.memory_snapshot v.sorted le v.seen;
        held = left;
        below =
            subst (λ i. IsBelow (suc i) l'.dependencies) id
              (unfold next_bound in
                (op_callback-IsBelow b (memfree free) false [] [] l l' (omega (arith, le, id))
                  v.below returns));
      },
    )

module _ (b stream_id memory_id h start end shadow : ℕ) (r : Registry) (l : Liveness) where
  memory_register-IsFollowed :
      b ≤ h
      → r.analysis_enabled ≡ memory_liveness ∷ []
      → IsCoupled b r l
      → IsFollowed (suc h) l (memory_register stream_id memory_id h start end shadow r)
  unfolding new_memory
  memory_register-IsFollowed le alone v =
      elim (memory_register_outcome stream_id memory_id h start end shadow r) [
        | inl (missing, e) ↦ cc (v.seen.seen h le, missing)
        | inr (inl (m, found, old, e)) ↦
            rw e (l, unfold notify in refl, IsCoupled-mono b h r l le v)
        | inr (inr (m, found, new, e)) ↦
            let (l', returns, coupled) = registered-IsCoupled b h _ m r l le refl v found new in
            rw e (l', notified (memory _) l l' alone returns, coupled)
      ]

  memory_unregister-IsFollowed :
      b ≤ h
      → r.analysis_enabled ≡ memory_liveness ∷ []
      → IsCoupled b r l
      → IsFollowed (suc h) l (memory_unregister stream_id memory_id h start end r)
  unfolding new_memfree
  memory_unregister-IsFollowed le alone v =
      elim (memory_unregister_outcome stream_id memory_id h start end r) [
        | inl (missing, e) ↦ rw e (l, unfold notify in refl, IsCoupled-mono b h r l le v)
        | inr (inl (m, found, missing, e)) ↦
            rw e (l, unfold notify in refl, IsCoupled-mono b h r l le v)
        | inr (inr (m, mem, found, there, e)) ↦
            let (l', returns, coupled) =
              unregistered-IsCoupled b h _ m mem r l le refl v found there in
            rw e (l', notified (memfree _) l l' alone returns, coupled)
      ]

  -- Where the memory liveness alone is enabled, an allocation or a free by a new operation keeps
  -- registry and analysis coupled, whatever its outcome: the calls that it makes return, and the
  -- analysis maps the starts of the live memories that later operations see, and no other address,
  -- to the ids of their operations.
  pub Registry-IsCoupled :
      b ≤ h
      → r.analysis_enabled ≡ memory_liveness ∷ []
      → IsCoupled b r l
      → IsFollowed (suc h) l (memory_register stream_id memory_id h start end shadow r)
        × IsFollowed (suc h) l (memory_unregister stream_id memory_id h start end r)
  Registry-IsCoupled le alone v =
      (memory_register-IsFollowed le alone v, memory_unregister-IsFollowed le alone v)
