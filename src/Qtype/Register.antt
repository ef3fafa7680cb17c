-- ===== src/Qtype/Register.antt =====
-- internal/domain/qtype/qtype.go, RegisterAll: the table of the twelve question types.
pub mod Tags
use wenjuandiaocha_backend.Base.{[]}
use wenjuandiaocha_backend.Platform.{Platform}
use wenjuandiaocha_backend.Domain.Registry.{Registry, register_handler}
use wenjuandiaocha_backend.Qtype.Text.{text_input, textarea}
use wenjuandiaocha_backend.Qtype.Choice.{single_choice, multi_choice}
use wenjuandiaocha_backend.Qtype.Dropdown.{dropdown}
use wenjuandiaocha_backend.Qtype.Scale.{scale}
use wenjuandiaocha_backend.Qtype.Matrix.{matrix_single}
use wenjuandiaocha_backend.Qtype.Matrix.Multi.{matrix_multi}
use wenjuandiaocha_backend.Qtype.Matrix.Scored.{matrix_scale}
use wenjuandiaocha_backend.Qtype.Matrix.Fill.{matrix_fill}
use wenjuandiaocha_backend.Qtype.Matrix.Slider.{matrix_slider}
use wenjuandiaocha_backend.Qtype.MultiFill.{multi_fill}

module _ (pf : Platform) where
  -- The table after RegisterAll, which starts from the empty one.
  unfoldable pub register_all : Registry pf
  unfolding register_handler
  register_all =
      let r1 = register_handler pf [] (single_choice pf) in
      let r2 = register_handler pf r1 (multi_choice pf) in
      let r3 = register_handler pf r2 (scale pf) in
      let r4 = register_handler pf r3 (text_input pf) in
      let r5 = register_handler pf r4 (textarea pf) in
      let r6 = register_handler pf r5 (matrix_single pf) in
      let r7 = register_handler pf r6 (matrix_multi pf) in
      let r8 = register_handler pf r7 (matrix_scale pf) in
      let r9 = register_handler pf r8 (matrix_fill pf) in
      let r10 = register_handler pf r9 (matrix_slider pf) in
      let r11 = register_handler pf r10 (multi_fill pf) in register_handler pf r11 (dropdown pf)
