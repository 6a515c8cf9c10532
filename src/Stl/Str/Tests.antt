-- ===== src/Stl/Str/Tests.antt =====
-- A string that grows and shrinks.
use electric_os.Base.{ℕ, zero, suc, List, [], ◌∷◌, length, some, ◌≡◌, refl, arith, ap}
use electric_os.Stl.Str.{Str, empty}
use electric_os.Stl.Str.View.{Holds}
use electric_os.Stl.Str.Edits.{
  Edit, push_one, push_text, pop_one, edited, edited_all, edit_all, IsFit, AreFit, edit_all_lem,
}

-- Memory that holds the byte 0xCC everywhere.
abbrev garbage : ℕ → List ℕ
garbage zero = []
garbage (suc n) = 0xCC ∷ garbage n

length-garbage : (n : ℕ) → length (garbage n) ≡ n
length-garbage zero = refl
length-garbage (suc n) = ap suc (length-garbage n)

abbrev edits : List Edit
edits = push_one b'a' ∷ push_text (b'b' ∷ b'c' ∷ []) ∷ pop_one ∷ []

edits-AreFit : AreFit [] edits
unfolding AreFit IsFit edited
edits-AreFit = (omega arith, (omega arith, (omega arith, tt)))

edit_all_lem_example :
    (t : Str) × (edit_all garbage empty edits ≡ some t) × Holds t (edited_all [] edits)
edit_all_lem_example = edit_all_lem garbage length-garbage edits edits-AreFit
