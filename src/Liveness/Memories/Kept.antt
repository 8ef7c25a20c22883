-- ===== src/Liveness/Memories/Kept.antt =====
-- What is registered for a memory, and the search of a kernel's hits.
use ten_prof.Prelude.{
  ℕ, ◌≡◌, refl, ◌∙◌, ◌&&◌, Option, none, some, [], ◌∷◌, ◌==◌, if◌then◌else◌, Bool-cases,
  Option-cases, inl, inr, to_eq,
}
use ten_prof.Common.Map.{Map, find, assign, u64_key}
use ten_prof.Common.Map.Laws.{find-assign}
use ten_prof.Liveness.{MemoryOperation, Operations}
use ten_prof.Liveness.Memories.{memory_operation_register}

-- What an operation did to a memory.
unfoldable pub operation_at : ℕ → ℕ → Operations → Option MemoryOperation
operation_at id op_id ops = elim (find id ops) [ none ↦ none | some list ↦ find op_id list ]

-- `first`, unless there is none.
abbrev pub or_else {ℓ} : {A : Type ℓ} → Option A → A → Option A
or_else none a = some a
or_else (some b) a = some b

operation_at-assign :
    (id j i : ℕ) (list : Map ℕ MemoryOperation) (ops : Operations)
    → operation_at j i (assign id list ops)
      ≡ (if j == id then find i list else operation_at j i ops)
unfolding operation_at
operation_at-assign id j i list ops =
    rw (operation_at, find-assign id j list ops)
      (elim (Bool-cases (j == id)) [
        | inl same ↦ rw same refl
        | inr other ↦ rw (other, operation_at) refl
      ])

-- Writing the list of a memory again with one more operation changes that operation alone.
operation_at_grown :
    (id op_id j i : ℕ) (a : Option MemoryOperation) (list : Map ℕ MemoryOperation)
    (ops : Operations)
    → ((k : ℕ) → find k list ≡ (if k == op_id then a else operation_at id k ops))
    → operation_at j i (assign id list ops)
      ≡ (if (j == id) && (i == op_id) then a else operation_at j i ops)
operation_at_grown id op_id j i a list ops grown =
    rw (operation_at-assign id j i list ops) (elim (Bool-cases (j == id)) [
      | inl same ↦ rw (same, grown i, to_eq j id same) refl
      | inr other ↦ rw other refl
    ])

-- An entry that is kept may be written as a test for it.
kept_entry :
    (id op_id j i : ℕ) (old : MemoryOperation) (ops : Operations)
    → operation_at id op_id ops ≡ some old
    → operation_at j i ops ≡ (if (j == id) && (i == op_id) then some old else operation_at j i ops)
kept_entry id op_id j i old ops e = elim (Bool-cases (j == id)) [
  | inl same ↦ elim (Bool-cases (i == op_id)) [
    | inl same' ↦ rw (same, same', to_eq j id same, to_eq i op_id same') e
    | inr other ↦ rw (same, other) refl
  ]
  | inr other ↦ rw other refl
]

operation_at_here :
    (id i : ℕ) (list : Map ℕ MemoryOperation) (ops : Operations)
    → find id ops ≡ some list
    → operation_at id i ops ≡ find i list
unfolding operation_at
operation_at_here id i list ops e = rw (operation_at, e) refl

-- Registering an operation at a memory enters its kind unless the memory has one of that id, and
-- changes nothing else.
pub memory_operation_register_lem :
    (id op_id j i : ℕ) (kind : MemoryOperation) (ops : Operations)
    → operation_at j i (memory_operation_register id op_id kind ops) ≡ (
        if (j == id) && (i == op_id)
        then or_else (operation_at id op_id ops) kind
        else operation_at j i ops)
unfolding memory_operation_register
memory_operation_register_lem id op_id j i kind ops = elim (Option-cases (find id ops)) [
  | inl missing ↦
      let none_here : (k : ℕ) → operation_at id k ops ≡ none =
        λ k. unfold operation_at in (rw (operation_at, missing) refl) in
      rw (missing, memory_operation_register, none_here op_id)
        (operation_at_grown id op_id j i (some kind) ((op_id, kind) ∷ []) ops
          (λ k. rw (none_here k) (unfold find in refl)))
  | inr (list, there) ↦ elim (Option-cases (find op_id list)) [
    | inl new ↦
        rw (there, memory_operation_register, new, operation_at_here id op_id list ops there, new)
          (operation_at_grown id op_id j i (some kind) (assign op_id kind list) ops
            (λ k. rw (operation_at_here id k list ops there) (find-assign op_id k kind list)))
    | inr (old, known) ↦
        rw
          (
            there,
            memory_operation_register,
            known,
            operation_at_here id op_id list ops there,
            known,
          )
          (kept_entry id op_id j i old ops (operation_at_here id op_id list ops there ∙ known))
  ]
]
