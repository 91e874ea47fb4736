-- ===== src/Tests/Slices.antt =====
-- Two slices over six cells, the first with room for one more element.
use temporal_determinizer.Prelude.{ℕ, ◌≡◌, ◌≤◌, arith, Option, some, ◌+◌}
use temporal_determinizer.Word.{IntKind}
use temporal_determinizer.Value.{Value, Header}
use temporal_determinizer.Heap.{Heap}
use temporal_determinizer.Memory.Done.{Done}
use temporal_determinizer.Slices.{builtin_append, builtin_copy, header_of, header_contents}
use temporal_determinizer.Slices.Append.{IsSlice, IsExtended, append-IsExtended}
use temporal_determinizer.Slices.Copy.{IsCopied, builtin_copy-IsCopied}
use temporal_determinizer.Tests.Variables.{number}

abbrev cells : Heap
cells = record { next = 6; cell = λ a. number a }

abbrev front : Header
front = record { base = 0; len = 2; cap = 3 }

abbrev back : Header
back = record { base = 2; len = 4; cap = 4 }

front-IsSlice : IsSlice cells front
front-IsSlice = record { within = omega arith; allocated = omega arith }

-- the capacity is doubled, if that is enough
abbrev pub doubled : ℕ → ℕ → ℕ
doubled c n = n + c

pub doubled_enough : (c n : ℕ) → n ≤ doubled c n
doubled_enough c n = omega arith

-- the second slice does not fit into the first
append-IsExtended_example :
    Done
      (builtin_append doubled (Value.slice (some front)) (some (Value.slice (some back))))
      cells
      (λ v h'.
        (y : Option Header) × (v ≡ Value.slice y)
        × IsExtended front (header_contents cells.cell back) cells (header_of y) h')
append-IsExtended_example =
    append-IsExtended doubled doubled_enough (some front) (some back) cells front-IsSlice

-- the first two of the second slice go to the first
builtin_copy-IsCopied_example :
    Done
      (builtin_copy doubled (Value.slice (some front)) (Value.slice (some back)))
      cells
      (λ v h'. (v ≡ Value.integer IntKind.int 2) × IsCopied front back 2 cells h')
builtin_copy-IsCopied_example = builtin_copy-IsCopied doubled (some front) (some back) cells
