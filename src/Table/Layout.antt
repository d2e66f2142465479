-- ===== src/Table/Layout.antt =====
-- The widths of what print_table_head_section of src/main.cpp draws.
use cli_pos.Base.{
  ℕ, ◌+◌, ◌-◌, ◌/◌, ◌%◌, ◌^◌, ◌≤◌, ◌<◌, ◌≡◌, ◌∷◌, [], arith, length, length-append, ◌==◌,
  if◌then◌else◌, ◌&&◌, not,
}
use cli_pos.Base.Int.{pos}
use cli_pos.Text.{Text}
use cli_pos.Words.{size_sub, to_int}
use cli_pos.Table.Head.{head_name, head_padding}

head_padding_lem :
    (name : Text) (size : ℕ)
    → length name ≤ size
    → size < 2 ^ 31
    → head_padding name (pos size) ≡ (size - length name) / 2
unfolding head_padding size_sub to_int
head_padding_lem name size h k = ground arith

length-head_name :
    (name : Text) (size : ℕ)
    → length (head_name name (pos size))
      ≡ (if length name % 2 == 1 && not (size % 2 == 1) then length name + 1 else length name)
unfolding head_name
length-head_name name size = ground (arith, length-append name (b' ' ∷ []))

-- The head of a column, of less than 2^31, whose name fits is as wide as the column, but for a name
-- of even length in a column of odd width, whose head is one short.
pub head_width :
    (name : Text) (size : ℕ)
    → length name ≤ size
    → size < 2 ^ 31
    → let drawn = head_name name (pos size) in
      head_padding drawn (pos size) + length drawn + head_padding drawn (pos size)
      ≡ (if length name % 2 == 0 && (size % 2 == 1) then size - 1 else size)
head_width name size h k =
    let drawn = head_name name (pos size) in
    let fits : length drawn ≤ size = ground (arith, length-head_name name size) in
    rw (head_padding_lem drawn size fits k) (ground (arith, length-head_name name size))
