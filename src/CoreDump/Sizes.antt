-- ===== src/CoreDump/Sizes.antt =====
-- How long the parts of the file of src/TestApps/coredump_fixture.cpp are.
use serena_de.CoreDump.{zeros, update, write_bytes, stack_data, stack_size, stack_base}
use serena_de.Prelude.{ℕ, zero, suc, ◌+◌, ◌/◌, ◌%◌, ◌≡◌, refl, ap, ◌∙◌, List, [], ◌∷◌, length}

pub length-zeros : (n : ℕ) → length (zeros n) ≡ n
unfolding zeros
length-zeros zero = refl
length-zeros (suc n) = ap suc (length-zeros n)

pub length-update : (i v : ℕ) (xs : List ℕ) → length (update i v xs) ≡ length xs
unfolding update
length-update i v [] = refl
length-update zero v (x ∷ xs) = refl
length-update (suc i) v (x ∷ xs) = ap suc (length-update i v xs)

pub length-write_bytes :
    (count offset value : ℕ) (xs : List ℕ) → length (write_bytes count offset value xs) ≡ length xs
unfolding write_bytes
length-write_bytes zero offset value xs = refl
length-write_bytes (suc count) offset value xs =
    length-write_bytes count (offset + 1) (value / 256) (update offset (value % 256) xs)
    ∙ length-update offset (value % 256) xs

pub length-stack_data : (main_address : ℕ) → length (stack_data main_address) ≡ stack_size
unfolding stack_data
length-stack_data main_address =
    length-write_bytes 8 0x208 0 _
    ∙ length-write_bytes 8 0x200 0 _
    ∙ length-write_bytes 8 0x108 (main_address + 8) _
    ∙ length-write_bytes 8 0x100 (stack_base + 0x200) (zeros stack_size)
    ∙ length-zeros stack_size
