-- ===== src/Unify/Tests.antt =====
-- Runs of unifyBytes, and instances of its theorems.
use function_hcl.Base.{◌≡◌, ◌≢◌, refl, arith, List, [], ◌∷◌, lookup, insert, string_eq, nat_eq}
use function_hcl.Unify.{ok, out_of_fuel, unify, unify_bytes, unify_bytes_fields, bytes_equal}
use function_hcl.Json.{Object, object, text, end, field}
use function_hcl.Unify.Depth.{depth_of_all, object_depth, unify_total}
use function_hcl.Unify.Bytes.{Entries, Covers, Below, unify_bytes_least, unify_bytes-Covers}

-- Two blocks give the user name, and one the password.
abbrev secrets : List Entries
secrets = (("user", 97 ∷ []) ∷ []) ∷ (("password", 98 ∷ []) ∷ ("user", 97 ∷ []) ∷ []) ∷ []

abbrev merged : Entries
merged = ("user", 97 ∷ []) ∷ ("password", 98 ∷ []) ∷ []

unify_bytes_least_example :
    (ret : Entries) × (unify_bytes secrets ≡ ok ret) × Covers ret secrets × Below ret merged
unfolding lookup string_eq
unify_bytes_least_example = unify_bytes_least merged secrets ((refl, tt), ((refl, (refl, tt)), tt))

unify_bytes-Covers_example : Covers merged secrets
unfolding unify_bytes unify_bytes_fields bytes_equal lookup insert string_eq nat_eq
unify_bytes-Covers_example = unify_bytes-Covers secrets merged refl

-- Two statuses that share an object.
abbrev statuses : List Object
statuses =
    field "queue" (object (field "url" (text "u") end)) end
    ∷ field "queue" (object (field "arn" (text "a") end)) end
    ∷ []

unify_total_example : unify 2 statuses ≢ out_of_fuel
unfolding depth_of_all object_depth
unify_total_example = unify_total 2 statuses (omega arith)
