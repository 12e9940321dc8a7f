-- ===== src/Tests/Locking.antt =====
-- A mutex whose type libc refuses.
use aiq.Prelude.{◌≡◌, []}
use aiq.Pthread.{attr_settype, Libc, init}
use aiq.Pthread.Attributes.{calls_of, destroys, init-destroys}

abbrev refuses_type : Libc
refuses_type calls attr_settype = 22
refuses_type calls _ = 0

init-destroys_example : destroys (calls_of (init refuses_type [])) ≡ 1
init-destroys_example = init-destroys refuses_type []
