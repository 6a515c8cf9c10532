-- ===== src/Programs/Calculator/Tests.antt =====
-- 12 and 5.
use electric_os.Base.{◌^◌, ◌-◌, ◌≤◌, ◌<◌, [], ◌∷◌, ◌≡◌, arith}
use electric_os.Stl.Cstr.{to_int}
use electric_os.Programs.Calculator.{add, sub, mul, div}
use electric_os.Programs.Calculator.Answers.{typed, answer, answer_lem}

twelve : to_int (typed (1 ∷ 2 ∷ [])) < 2 ^ 32
unfolding to_int typed
twelve = omega arith

five : to_int (typed (5 ∷ [])) < 2 ^ 32
unfolding to_int typed
five = omega arith

some_five : 1 ≤ to_int (typed (5 ∷ []))
unfolding to_int typed
some_five = omega arith

answer_lem_example :
    (to_int (answer (1 ∷ 2 ∷ []) add (5 ∷ [])) ≡ 17)
    × (to_int (answer (1 ∷ 2 ∷ []) mul (5 ∷ [])) ≡ 60)
    × (to_int (answer (1 ∷ 2 ∷ []) div (5 ∷ [])) ≡ 2)
    × (to_int (answer (1 ∷ 2 ∷ []) sub (5 ∷ [])) ≡ 2 ^ 32 - 17)
unfolding to_int typed
answer_lem_example = answer_lem 1 (2 ∷ []) 5 [] (omega arith) (omega arith) twelve five some_five
