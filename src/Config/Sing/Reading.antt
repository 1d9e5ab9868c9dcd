-- ===== src/Config/Sing/Reading.antt =====
-- What a write to a Go map of JSON leaves to be read.
use hiddify_core.Prelude.{String, ◌≡◌, refl, arith, ◌==◌, eq_iff, if◌then◌else◌, false}
use hiddify_core.Config.Sing.{Value, Fields, end, field, get, put}

pub get-put :
    (k j : String) (v : Value) (m : Fields) → get j (put k v m) ≡ (if k == j then v else get j m)
unfolding get put
get-put k j v end = refl
get-put k j v (field i w m) = ground (arith, eq_iff k j, eq_iff i k, eq_iff i j, get-put k j v m)

pub get-put_other :
    (k j : String) (v : Value) (m : Fields) → (k == j) ≡ false → get j (put k v m) ≡ get j m
get-put_other k j v m e = rw (get-put k j v m) (rw e)
