-- ===== src/Tests/Registered.antt =====
-- The bag of clients of the sample table.
use wd_broker.Prelude.{◌≡◌, refl, false, true}
use wd_broker.Text.{codes, all_bytes, is_print, is_space, str_eq}
use wd_broker.Scan.{scan_word, scan_uint}
use wd_broker.Handler.{scan_register, register_error, handle_register}
use wd_broker.Registry.{admit, takes_over, takes_free}
use wd_broker.Registry.View.{view}
use wd_broker.Registry.Admission.{Registered, handle_register-Registered}
use wd_broker.Tests.Data.{table, broker, env, stranger}

-- `beta` is announced; `gamma` is not.
admit_beta : admit (broker true true).config 3 (view table) (codes "beta") ≡ takes_over
unfolding admit str_eq
admit_beta = refl

admit_gamma : admit (broker false true).config 3 (view table) (codes "gamma") ≡ takes_free
unfolding admit str_eq
admit_gamma = refl

handle_register-Registered_example :
    let args = codes "beta 7000\n" in
    let (b', reply) = handle_register env stranger args (broker true true) in
    let a = scan_register args in
    Registered env stranger a
      (admit (broker true true).config 3 (view table) a.name)
      (view table)
      (view b'.clients)
      reply
unfolding register_error scan_register scan_word scan_uint all_bytes is_print is_space str_eq
handle_register-Registered_example =
    handle_register-Registered env stranger (codes "beta 7000\n") (broker true true) refl
