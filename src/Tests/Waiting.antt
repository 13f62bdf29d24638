-- ===== src/Tests/Waiting.antt =====
-- A run of a server's request: its client answers twice before the waiting goroutine runs, which then
-- finds its context done.
use fastmcp.Prelude.{true, ℕ, Text, text_eq, [], ◌∷◌, refl, arith}
use fastmcp.Prelude.Dict.{get, put}
use fastmcp.Session.Requests.{
  Calls, no_calls, register_call, look_up, send_on, return_response, give_up, registers, looks_up,
  sends, returns, gives_up, Steps, stay, next,
}
use fastmcp.Session.Requests.Delivery.{Came, IsStuck, answers-Came, IsStuck-forever}

abbrev id_of : ℕ → Text
id_of n = n ∷ []

abbrev asked : Calls ℕ
asked = register_call id_of (no_calls true)

abbrev first_in : Calls ℕ
first_in = send_on id_of 1 7 (look_up id_of (id_of 1) 7 asked)

first_run : (t : Calls ℕ) → Steps id_of first_in t → Steps id_of (no_calls true) t
unfolding get put text_eq
first_run t rest = next (no_calls true) asked t (registers (no_calls true) refl) (
    next asked (look_up id_of (id_of 1) 7 asked) t (looks_up asked (id_of 1) 7 refl) (
      next (look_up id_of (id_of 1) 7 asked) first_in t
        (sends (look_up id_of (id_of 1) 7 asked) 1 7 refl refl) rest))

answers-Came_example : Came (id_of 1) 7 (return_response id_of 1 7 first_in).received
answers-Came_example =
    answers-Came id_of true (return_response id_of 1 7 first_in) 1 7
      (first_run (return_response id_of 1 7 first_in) (
        next first_in (return_response id_of 1 7 first_in) (return_response id_of 1 7 first_in)
          (returns first_in 1 7 refl refl) (stay (return_response id_of 1 7 first_in))))
      refl

abbrev twice_in : Calls ℕ
twice_in = look_up id_of (id_of 1) 8 first_in

abbrev left : Calls ℕ
left = give_up id_of 1 twice_in

-- the stuck state comes about
left_run : Steps id_of (no_calls true) left
left_run = first_run left (
    next first_in twice_in left (looks_up first_in (id_of 1) 8 refl)
      (next twice_in left left (gives_up twice_in 1 refl) (stay left)))

IsStuck-forever_example : IsStuck 1 8 (register_call id_of left)
unfolding get put text_eq
IsStuck-forever_example =
    IsStuck-forever id_of 1 8 left (register_call id_of left)
      (next left (register_call id_of left) (register_call id_of left) (registers left refl)
        (stay (register_call id_of left)))
      (refl, (7, refl), refl, omega arith)
