-- ===== src/Creatives/Tests.antt =====
-- The theorems on the routes and on posting times, at concrete inputs.
use aidigiplanner_backend.Base.{ℕ, ◌+◌, ◌*◌, ◌%◌, ◌≤◌, ◌<◌, ◌≡◌, refl, [], ◌∷◌, some, false, arith}
use aidigiplanner_backend.Model.Session.{open_session, err, app, forbidden}
use aidigiplanner_backend.Model.Queries.{get_product, company_membership, product_membership}
use aidigiplanner_backend.Core.Access.{administers}
use aidigiplanner_backend.Creatives.Lifecycle.Policy.{Authority}
use aidigiplanner_backend.Creatives.Endpoints.{
  approve_creative_concept, approve_and_publish_creative_concept, approver_shut_out,
}
use aidigiplanner_backend.Creatives.PostingTime.{
  FirstHour, suggest_posting_time, suggest_posting_time_next, hour_length, day_length,
}
use aidigiplanner_backend.Samples.{database, approver, approver_row, product}

product_there : get_product 10 database ≡ some product
unfolding get_product
product_there = refl

no_admin : administers (company_membership 1 approver.id database) ≡ false
unfolding company_membership
no_admin = refl

member : product_membership 10 approver.id database ≡ some approver_row
unfolding product_membership
member = refl

approver_shut_out_example :
    Authority product approver database
    × (approve_creative_concept 10 20 approver 6 (open_session database)
        ≡ (err (app forbidden), open_session database))
    × (approve_and_publish_creative_concept 10 20 approver 6 (open_session database)
        ≡ (err (app forbidden), open_session database))
approver_shut_out_example =
    approver_shut_out 20 6 approver product approver_row (open_session database) product_there refl
      refl refl no_admin member refl

suggest_posting_time_next_example :
    (1_000_000_000_000 + hour_length
      ≤ suggest_posting_time ("youtube" ∷ []) 1_000_000_000_000 hour_length)
    × (suggest_posting_time ("youtube" ∷ []) 1_000_000_000_000 hour_length
        < 1_000_000_000_000 + hour_length + day_length)
    × ((hour : ℕ) × FirstHour ("youtube" ∷ []) hour
        × (suggest_posting_time ("youtube" ∷ []) 1_000_000_000_000 hour_length % day_length
            ≡ hour * hour_length))
suggest_posting_time_next_example =
    suggest_posting_time_next ("youtube" ∷ []) 1_000_000_000_000 hour_length (omega arith)
