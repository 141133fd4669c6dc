-- ===== src/Worker/Examples.antt =====
-- Frames and tails at concrete inputs.
use mathlib.Core.List.{flatten}
use paraflow.Prelude.{◌≡◌, ◌≤◌, arith, length, List, [], ◌∷◌}
use paraflow.Prelude.Text.{Bytes, codes}
use paraflow.Worker.Frame.{end_of_file, read_frame}
use paraflow.Worker.Frame.Slices.{split_line}
use paraflow.Worker.Frame.Fragmentation.{frame_spec, read_frame-eq}
use paraflow.Worker.Tail.{new_bounded_tail, write_all}
use paraflow.Worker.Tail.Suffix.{suffix, write_all-new}

read_frame-eq_example :
    read_frame 2 4 end_of_file (codes "line\r\nmore")
    ≡ frame_spec 4 end_of_file (codes "line\r\nmore") (split_line (codes "line\r\nmore"))
read_frame-eq_example = read_frame-eq 2 4 end_of_file (codes "line\r\nmore") (omega arith)

abbrev written : List Bytes
written = codes "first" ∷ codes "second" ∷ []

write_all-new_example :
    ((write_all (new_bounded_tail 8) written).bytes ≡ suffix 8 (flatten written))
    × (length (write_all (new_bounded_tail 8) written).bytes ≤ 8)
write_all-new_example = write_all-new 8 written
