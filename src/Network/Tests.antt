-- ===== src/Network/Tests.antt =====
-- drivers/network/netdevice.c, runs of the model at concrete inputs.
use tisdk_cc32xx_issues.Prelude.{ℕ, List, [], ◌∷◌, ◌≡◌, refl, some, pos, negsuc, arith}
use tisdk_cc32xx_issues.Network.Worker.{WorkerThread, worker_round, worker_stub}
use tisdk_cc32xx_issues.Network.Listeners.{Listener}
use tisdk_cc32xx_issues.Network.Certificate.{load_sec_obj, install_certificate}
use tisdk_cc32xx_issues.Network.Escapes.{replace_escapes, ends_in_n, install_certificate-replaces}

abbrev devices : List ℕ
devices = 10 ∷ 11 ∷ []

abbrev listeners : List Listener
listeners = record { listener = some 5; object = some 6; interface = 0 } ∷ []

-- The text "a\nb" with its escape
abbrev text : List ℕ
text = 97 ∷ 92 ∷ 110 ∷ 98 ∷ []

install_certificate-replaces_example :
    install_certificate text [] ≡ load_sec_obj (97 ∷ 13 ∷ 10 ∷ 98 ∷ 0 ∷ 0 ∷ []) 5
unfolding replace_escapes ends_in_n
install_certificate-replaces_example =
    install_certificate-replaces text [] (omega arith) (omega arith) refl

abbrev worker : WorkerThread
worker = record { delay = 5; timer = 0; calls = 0; sleeps = 0 }

-- A call that fails ends the loop without a sleep.
worker_ends :
    worker_stub (pos 0 ∷ pos 1 ∷ negsuc 0 ∷ pos 0 ∷ []) worker
    ≡ some (record { delay = 5; timer = 10; calls = 3; sleeps = 2 })
unfolding worker_round worker_stub
worker_ends = refl
