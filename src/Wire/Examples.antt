-- ===== src/Wire/Examples.antt =====
-- Tests of the frames, and their theorems at concrete inputs.
use tarsk.Base.{Text, arith, refl, some, take, text, ◌++◌, ◌∷◌, ◌≡◌}
use tarsk.Wire.{MessagePack, as_slice, binary}
use tarsk.Wire.Frames.{
  be_bytes, cut_short, frame, read_frame, read_frame-write_frame, read_frame_cut, write_frame,
}

-- A MessagePack for byte strings only.
abbrev bytes_only : MessagePack
bytes_only = record { write_value = λ v. as_slice v; read_value = λ bytes. some (binary bytes) }

framed : write_frame bytes_only (binary (text "hi")) ≡ some (0 ∷ 0 ∷ 0 ∷ 2 ∷ text "hi")
unfolding write_frame be_bytes
framed = refl

read_frame-write_frame_example :
    (bytes : Text) × (write_frame bytes_only (binary (text "hi")) ≡ some bytes)
    × (read_frame (bytes ++ text "rest") ≡ frame (text "hi") (text "rest"))
read_frame-write_frame_example =
    read_frame-write_frame bytes_only (binary (text "hi")) (text "rest") refl (omega arith)

read_frame_cut_example : read_frame (take 5 (be_bytes 2 ++ text "hi")) ≡ cut_short
read_frame_cut_example = read_frame_cut (text "hi") 5 (omega arith) (omega arith)
