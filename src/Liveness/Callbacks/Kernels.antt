-- ===== src/Liveness/Callbacks/Kernels.antt =====
-- The accesses of a kernel, as its analysis begins, keep the edges of the dependency graph rising.
use mathlib.Core.Option.{some-injective}
use ten_prof.Prelude.{
  ℕ, suc, ◌≤◌, ◌≡◌, refl, sym, ap, ◌∙◌, subst, true, false, Option, none, some, List, [], ◌∷◌, ◌==◌,
  arith, Bool-cases, Option-cases, inl, inr, ◌⊎◌, ltb, contains, bind_some,
}
use ten_prof.Common.Map.{Map, find, u64_key}
use ten_prof.Liveness.{memory_access, AccessType, Liveness, Dependencies, Ledger}
use ten_prof.Liveness.Memories.{AuxEntry, hit_entries, note, raise_optimal, update_aux_hit}
use ten_prof.Liveness.Update.{update_graph_at_access, access_of, update_graph_at_kernel}
use ten_prof.Liveness.Update.Rising.{IsGrown}
use ten_prof.Liveness.Update.Entered.{
  IsBelow, IsGrown-IsBelow, update_graph_at_access-IsGrown, update_graph_at_access_again,
}
use ten_prof.Liveness.Callbacks.{begin_main, begin_sub, analysis_begin}
use ten_prof.Liveness.Callbacks.Copied.{IsBelow-mono}

-- The memories that a kernel accesses, in the order of its entries.
unfoldable pub hit_ids : List AuxEntry → Map ℕ ℕ → List ℕ
hit_ids [] addresses = []
hit_ids (e ∷ aux) addresses =
    let rest = hit_ids aux addresses in
    elim (e.hit == 1) [
      | true ↦ elim (find e.start addresses) [
        | none ↦ rest
        | some id ↦ elim (access_of e) [ none ↦ rest | some access ↦ id ∷ rest ]
      ]
      | false ↦ rest
    ]

-- No id comes twice, and none is in `t`.
abbrev pub AreApart : List ℕ → List ℕ → Type 0
AreApart t [] = Unit
AreApart t (i ∷ is) = (contains i t ≡ false) × AreApart (i ∷ t) is

-- The operation is about to be entered, or has touched `t`.
abbrev IsOpen : ℕ → ℕ → List ℕ → Dependencies → Type 0
IsOpen b op t d = (IsBelow b d × (t ≡ [])) ⊎ IsGrown true t op d

IsOpen-access :
    (b op stream_id id : ℕ) (access : AccessType) (t : List ℕ) (d d' : Dependencies)
    → b ≤ op
    → IsOpen b op t d
    → contains id t ≡ false
    → update_graph_at_access op memory_access stream_id id access d ≡ some d'
    → IsOpen b op (id ∷ t) d'
IsOpen-access b op stream_id id access t d d' le (inl (v, start)) new e =
    rw start
      (inr (update_graph_at_access-IsGrown b op memory_access stream_id id access d d' le v e))
IsOpen-access b op stream_id id access t d d' le (inr v) new e =
    inr (update_graph_at_access_again t op memory_access stream_id id access d d' v new e)

kernel-IsOpen :
    (b op stream_id : ℕ) (aux : List AuxEntry) (addresses : Map ℕ ℕ) (t : List ℕ)
    (d d' : Dependencies)
    → b ≤ op
    → IsOpen b op t d
    → AreApart t (hit_ids aux addresses)
    → update_graph_at_kernel aux op stream_id addresses d ≡ some d'
    → (t' : List ℕ) × IsOpen b op t' d'
unfolding update_graph_at_kernel hit_ids
kernel-IsOpen b op stream_id [] addresses t d d' le v apart e =
    (t, subst (IsOpen b op t) (some-injective d d' e) v)
kernel-IsOpen b op stream_id (a ∷ aux) addresses t d d' le v apart e =
    elim (Bool-cases (a.hit == 1)) [
      | inr miss ↦
          kernel-IsOpen b op stream_id aux addresses t d d' le v (rw (miss, hit_ids) at apart)
            (rw (miss, update_graph_at_kernel) at e)
      | inl hit ↦ elim (Option-cases (find a.start addresses)) [
        | inl missing ↦ cc (rw (hit, missing, update_graph_at_kernel) at e)
        | inr (id, found) ↦ elim (Option-cases (access_of a)) [
          | inl neither ↦
              kernel-IsOpen b op stream_id aux addresses t d d' le v
                (rw (hit, found, neither, hit_ids) at apart)
                (rw (hit, found, neither, update_graph_at_kernel) at e)
          | inr (access, is) ↦
              elim (Option-cases (update_graph_at_access op memory_access stream_id id access d)) [
                | inl missing ↦ cc (rw (hit, found, is, missing, update_graph_at_kernel) at e)
                | inr (d1, done) ↦
                    let apart' = rw (hit, found, is, hit_ids) at apart in
                    kernel-IsOpen b op stream_id aux addresses (id ∷ t) d1 d' le
                      (IsOpen-access b op stream_id id access t d d1 le v apart'.0 done) apart'.1
                      (rw (hit, found, is, done, update_graph_at_kernel) at e)
              ]
        ]
      ]
    ]

open-IsBelow :
    (b op : ℕ) (t : List ℕ) (d : Dependencies) → b ≤ op → IsOpen b op t d → IsBelow (suc op) d
open-IsBelow b op t d le (inl (v, start)) = IsBelow-mono b (suc op) d (omega arith) v
open-IsBelow b op t d le (inr v) = IsGrown-IsBelow true t op d v

update_graph_at_kernel-IsBelow :
    (b op stream_id : ℕ) (aux : List AuxEntry) (addresses : Map ℕ ℕ) (d d' : Dependencies)
    → b ≤ op
    → IsBelow b d
    → AreApart [] (hit_ids aux addresses)
    → update_graph_at_kernel aux op stream_id addresses d ≡ some d'
    → IsBelow (suc op) d'
update_graph_at_kernel-IsBelow b op stream_id aux addresses d d' le v apart e =
    let (t, end) = kernel-IsOpen b op stream_id aux addresses [] d d' le (inl (v, refl)) apart e in
    open-IsBelow b op t d' le end

hit_entries-addresses :
    (op_id : ℕ) (aux : List AuxEntry) (usage usage' : ℕ) (l l' : Ledger)
    → hit_entries op_id aux usage l ≡ some (usage', l')
    → l'.addresses_map ≡ l.addresses_map
unfolding hit_entries note
hit_entries-addresses op_id [] usage usage' l l' e =
    ap (λ (p : ℕ × Ledger). p.1.addresses_map) (sym (some-injective (usage, l) (usage', l') e))
hit_entries-addresses op_id (a ∷ aux) usage usage' l l' e = elim (Bool-cases (a.hit == 1)) [
  | inr miss ↦ hit_entries-addresses op_id aux usage usage' l l' (rw (miss, hit_entries) at e)
  | inl hit ↦ elim (Option-cases (find a.start l.addresses_map)) [
    | inl missing ↦ cc (rw (hit, missing, hit_entries) at e)
    | inr (id, found) ↦ elim (Option-cases (find id l.current_memories)) [
      | inl missing ↦ cc (rw (hit, found, missing, hit_entries) at e)
      | inr (mem, live) ↦
          hit_entries-addresses op_id aux _ usage' (note id op_id memory_access l) l'
            (rw (hit, found, live, hit_entries) at e)
    ]
  ]
]

raise_optimal-addresses :
    (op_id usage : ℕ) (l : Ledger) → (raise_optimal op_id usage l).addresses_map ≡ l.addresses_map
unfolding raise_optimal
raise_optimal-addresses op_id usage l = elim (Bool-cases (ltb l.optimal_memory_peak usage)) [
  | inl higher ↦ rw (higher, raise_optimal) refl
  | inr lower ↦ rw (lower, raise_optimal) refl
]

update_aux_hit-addresses :
    (op_id : ℕ) (aux : List AuxEntry) (l l' : Ledger)
    → update_aux_hit aux op_id l ≡ some l'
    → l'.addresses_map ≡ l.addresses_map
unfolding update_aux_hit
update_aux_hit-addresses op_id aux l l' e = elim (Option-cases (hit_entries op_id aux 0 l)) [
  | inl missing ↦ cc (rw (missing, update_aux_hit) at e)
  | inr ((usage, l1), hits) ↦
      let same =
        some-injective (raise_optimal op_id usage l1) l' (rw (hits, update_aux_hit) at e) in
      ap (λ (x : Ledger). x.addresses_map) (sym same)
      ∙ raise_optimal-addresses op_id usage l1
      ∙ hit_entries-addresses op_id aux 0 usage l l1 hits
]

-- The memories that a buffer's kernel accesses.
abbrev pub accessed : Option (List AuxEntry) → Map ℕ ℕ → List ℕ
accessed none addresses = []
accessed (some aux) addresses = hit_ids aux addresses

begin_main-IsBelow :
    (b op stream_id : ℕ) (aux : Option (List AuxEntry)) (l l' : Liveness)
    → b ≤ op
    → IsBelow b l.dependencies
    → AreApart [] (accessed aux l.main.addresses_map)
    → begin_main aux op stream_id l ≡ some l'
    → IsBelow (suc op) l'.dependencies
unfolding begin_main
begin_main-IsBelow b op stream_id none l l' le v apart e =
    subst (λ (x : Liveness). IsBelow (suc op) x.dependencies) (some-injective l l' e)
      (IsBelow-mono b (suc op) l.dependencies (omega arith) v)
begin_main-IsBelow b op stream_id (some aux) l l' le v apart e =
    elim (Option-cases (update_aux_hit aux op l.main)) [
      | inl missing ↦ cc (rw (missing, begin_main) at e)
      | inr (ledger, hits) ↦
          let e1 = rw (hits, begin_main, update_aux_hit-addresses op aux l.main ledger hits) at e in
          elim (Option-cases
            (update_graph_at_kernel aux op stream_id l.main.addresses_map l.dependencies)) [
              | inl missing ↦ cc (rw missing at e1)
              | inr (d, grown) ↦
                  subst (λ (x : Liveness). IsBelow (suc op) x.dependencies)
                    (some-injective _ l' (rw grown at e1))
                    (update_graph_at_kernel-IsBelow b op stream_id aux l.main.addresses_map
                      l.dependencies d le v apart grown)
            ]
    ]

begin_sub-dependencies :
    (op : ℕ) (aux : Option (List AuxEntry)) (l l' : Liveness)
    → begin_sub aux op l ≡ some l'
    → l'.dependencies ≡ l.dependencies
unfolding begin_sub
begin_sub-dependencies op none l l' e =
    ap (λ (x : Liveness). x.dependencies) (sym (some-injective l l' e))
begin_sub-dependencies op (some aux) l l' e = elim (Option-cases (update_aux_hit aux op l.sub)) [
  | inl missing ↦ cc (rw (missing, begin_sub) at e)
  | inr (ledger, hits) ↦
      ap (λ (x : Liveness). x.dependencies) (sym (some-injective _ l' (rw (hits, begin_sub) at e)))
]

-- The call keeps the edges rising, if the kernel is not an earlier operation and no memory comes twice
-- among its entries.
pub analysis_begin-IsBelow :
    (b op stream_id : ℕ) (aux torch_aux : Option (List AuxEntry)) (l l' : Liveness)
    → b ≤ op
    → IsBelow b l.dependencies
    → AreApart [] (accessed aux l.main.addresses_map)
    → analysis_begin aux torch_aux op stream_id l ≡ some l'
    → IsBelow (suc op) l'.dependencies
unfolding analysis_begin
analysis_begin-IsBelow b op stream_id aux torch_aux l l' le v apart e =
    let (l1, e1, e2) = bind_some _ _ l' e in
    subst (IsBelow (suc op)) (sym (begin_sub-dependencies op torch_aux l1 l' e2))
      (begin_main-IsBelow b op stream_id aux l l1 le v apart e1)
