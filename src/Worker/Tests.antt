-- ===== src/Worker/Tests.antt =====
-- A worker that ends by itself between the load and the store of a request.
use trading_base.Base.{◌≡◌, refl, List, [], ◌∷◌, ◌++◌, arith}
use trading_base.ResultCode.{a_ok}
use trading_base.Worker.{
  Turn, works, returns, requests, starting_up, w_start, w_exited, r_load, r_done, worker_step,
  request_step, delete_test, goes,
}
use trading_base.Worker.Shutdown.{shutdown-exits}

abbrev early : List Turn
early = works ∷ requests ∷ returns ∷ works ∷ requests ∷ []

returned : (goes early (starting_up, w_start, r_load)).2 ≡ r_done
unfolding worker_step request_step
returned = refl

shutdown-exits_example :
    ((goes (early ++ (works ∷ works ∷ [])) (starting_up, w_start, r_load)).1 ≡ w_exited)
    × (delete_test (goes early (starting_up, w_start, r_load)).0 ≡ a_ok)
    × (delete_test (goes (early ++ (works ∷ works ∷ [])) (starting_up, w_start, r_load)).0 ≡ a_ok)
shutdown-exits_example = shutdown-exits early (works ∷ works ∷ []) returned (omega arith)
