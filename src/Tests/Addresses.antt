-- ===== src/Tests/Addresses.antt =====
-- The dimensions of small tensors: the runs of redshow/include/analysis/torch_view.h on them.
use ten_prof.Prelude.{ℕ, ◌≡◌, ◌≤◌, refl, some, [], ◌∷◌, arith, ◌+◌, ◌*◌, ℕ_discrete, dec_lt}
use ten_prof.View.{Dimension, Tensor}
use ten_prof.View.Strides.{sort_tensor_strides}
use ten_prof.View.Strides.Order.{
  IsDescending, sort_tensor_strides_stops, sort_tensor_strides_unsorted,
}
use ten_prof.View.Address.{find_local_starting_address}
use ten_prof.View.Address.Floor.{
  IsFloor, find_local_starting_address-IsFloor, find_local_starting_address_overrun,
}

abbrev of_size : ℕ → ℕ → Dimension
of_size size stride = record { size = size; stride = stride }

-- A box of 2 by 3 by 4, with its two inner axes swapped.
abbrev box : Tensor
box = record {
  index = 0;
  numel = 24;
  dim = 3;
  dtype = 6;
  itemsize = 4;
  storage_offset = 0;
  dims = of_size 2 12 ∷ of_size 4 1 ∷ of_size 3 4 ∷ [];
  data_ptr = 1000;
  metadata_ptr = 50;
}

-- A matrix whose columns are contiguous.
abbrev columns : Tensor
columns = record box { dim = 2; dims = of_size 4 1 ∷ of_size 6 4 ∷ [] }

program : Unit {0}
unfolding ℕ_discrete dec_lt sort_tensor_strides find_local_starting_address
program = tt

columns_sorted : (sort_tensor_strides columns).dims ≡ of_size 6 4 ∷ of_size 4 1 ∷ []
unfolding program
columns_sorted = refl

row_of_address : find_local_starting_address 300 1000 4 8 4 1070 ≡ some 1064
unfolding program
row_of_address = refl

sort_tensor_strides_stops_example : sort_tensor_strides box ≡ box
sort_tensor_strides_stops_example =
    sort_tensor_strides_stops box (of_size 2 12) (of_size 4 1) (of_size 3 4 ∷ []) refl (omega arith)

sort_tensor_strides_unsorted_example : ¬ IsDescending (sort_tensor_strides box).dims
sort_tensor_strides_unsorted_example =
    sort_tensor_strides_unsorted box (of_size 2 12) (of_size 4 1) (of_size 3 4) [] refl
      (omega arith) (omega arith)

-- Four rows of 32 bytes at 1000.
find_local_starting_address-IsFloor_example :
    (r : ℕ) × (find_local_starting_address 300 1000 4 8 4 1070 ≡ some r)
    × IsFloor 1000 (4 * 8) 1070 r
find_local_starting_address-IsFloor_example =
    find_local_starting_address-IsFloor 8 4 1070 (omega arith) (omega arith) 300 1000 4
      (omega arith) (omega arith) (omega arith) (omega arith)

-- The address 1200 is past the last row.
find_local_starting_address_overrun_example :
    (r : ℕ) × (find_local_starting_address 300 1000 4 8 4 1200 ≡ some r) × (1000 + 4 * (4 * 8) ≤ r)
find_local_starting_address_overrun_example =
    find_local_starting_address_overrun 8 4 1200 (omega arith) (omega arith) 300 1000 4
      (omega arith) (omega arith) (omega arith) (omega arith)
