-- ===== src/Errors/Origin/Tests.antt =====
-- The theorems on the origin of an error at a driver error that points back at the error around it.
use nestjs_ddd.Prelude.{
  ℕ, ◌≡◌, ◌≤◌, refl, true, some, List, [], ◌∷◌, ◌++◌, length, ◌==◌, if◌then◌else◌,
}
use nestjs_ddd.Shared.Correlation.{codes}
use nestjs_ddd.Shared.Trace.{drop_spaces_after, skip_spaces}
use nestjs_ddd.Legacy.Prefix.{same_text, starts_with}
use nestjs_ddd.Shared.Text.{Text, trim}
use nestjs_ddd.Errors.Origin.Frame.{frame_from_stack}
use nestjs_ddd.Errors.Origin.{object_at, Store, ErrorOrigin, resolve_error_origin}
use nestjs_ddd.Errors.Origin.Chain.{chain, distinct, frames_of, resolve_error_origin-frames_of}

abbrev outer : Text
outer =
    codes "Error: no rows"
    ++ (10 ∷ codes "    at Pool.get (/app/node_modules/db/src/pool.js:8:2)")
    ++ (10 ∷ codes "    at Orders.find (/app/dist/orders.js:10:5)")

abbrev inner : Text
inner = codes "Error: down" ++ (10 ∷ codes "at /app/src/db.ts:7:1")

-- Each is the cause of the other.
abbrev circle : Store
circle a =
    if a == 0
    then record { stack = some outer; cause = object_at 1 }
    else record { stack = some inner; cause = object_at 0 }

abbrev found : ErrorOrigin
found = record {
  origin = some (codes "dist/orders.js:10 (Orders.find)");
  cause_origin = some (codes "src/db.ts:7");
}

resolved : resolve_error_origin circle (object_at 0) ≡ found
unfolding resolve_error_origin frame_from_stack trim drop_spaces_after skip_spaces starts_with
    same_text
resolved = refl

abbrev both : List ℕ
both = 0 ∷ 1 ∷ []

looked_at : chain circle 10 (object_at 0) [] ≡ both
unfolding chain
looked_at = refl

resolve_error_origin-frames_of_example :
    (resolve_error_origin circle (object_at 0) ≡ frames_of circle both)
    × (length both ≤ 10)
    × (distinct both ≡ true)
resolve_error_origin-frames_of_example =
    resolve_error_origin-frames_of circle (object_at 0) both looked_at
