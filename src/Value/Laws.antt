-- ===== src/Value/Laws.antt =====
-- Dicts of dynamic values: what a lookup finds after a change.
use garuda_tunnel.Base.{◌≡◌, refl, Text, text_eq, ◌==◌, if◌then◌else◌, arith}
use garuda_tunnel.Value.{Value, null, Fields, end, field, get, set, pop}

pub get-set :
    (j k : Text) (v : Value) (d : Fields) → get j (set k v d) ≡ (if j == k then v else get j d)
unfolding get set
get-set j k v end = refl
get-set j k v (field i w d) = ground (arith, get-set j k v d)

pub get-pop : (j k : Text) (d : Fields) → get j (pop k d) ≡ (if j == k then null else get j d)
unfolding get pop
get-pop j k end = ground arith
get-pop j k (field i w d) = ground (arith, get-pop j k d)
