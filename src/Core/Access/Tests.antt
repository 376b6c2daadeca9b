-- ===== src/Core/Access/Tests.antt =====
-- The access theorems at the sample database.
use aidigiplanner_backend.Base.{◌↔◌, [], ◌∷◌}
use aidigiplanner_backend.Model.{ProductRole}
use aidigiplanner_backend.Model.Session.{open_session}
use aidigiplanner_backend.Core.Access.{require_product_access}
use aidigiplanner_backend.Core.Access.Grants.{Passes, Granted, require_product_access_iff}
use aidigiplanner_backend.Samples.{database, manager}

require_product_access_iff_example :
    Passes
      (require_product_access (ProductRole.product_manager ∷ []) 10 manager (open_session database))
    ↔ Granted (ProductRole.product_manager ∷ []) 10 manager (open_session database)
require_product_access_iff_example =
    require_product_access_iff (ProductRole.product_manager ∷ []) 10 manager (open_session database)
