-- ===== src/Tests/Routes.antt =====
-- Runs of the routing of internal/api/admin.go.
use tailkitd.Prelude.{codes}
use tailkitd.Api.Http.{method_delete}
use tailkitd.Api.Gate.{required_capability}
use tailkitd.Api.Routes.{serve_http}
use tailkitd.Api.Routes.Capability.{serve_http-Needs, Needs}

serve_http-Needs_example :
    Needs
      (serve_http (codes "web") method_delete (codes "/admin/hosts/web/services/db"))
      (required_capability (codes "/admin/hosts/web/services/db"))
serve_http-Needs_example =
    serve_http-Needs (codes "web") method_delete (codes "/admin/hosts/web/services/db")
