-- ===== src/Approval/Endpoints.antt =====
-- The endpoints of app/api/routes/callbacks.py that approve and reject: for clients, and as links
-- that answer with a page. The id of the run is all that they ask for.
use langgraph_backend.Base.{String}
use langgraph_backend.Value.{Value, null}
use langgraph_backend.GraphRun.{GraphRun, Status}
use langgraph_backend.Mongo.{Collection}
use langgraph_backend.Approval.{
  Approver, conflict, Response, ok, error, Container, do_approve, do_reject,
}
use langgraph_backend.Stream.Notices.{Outlet}

abbrev pub link_approver : Approver
link_approver = record { slack_id = ""; name = ""; id = ""; source = "slack" }

-- The pages, without their texts.
pub data Page : Type 0 where
  already_actioned approved_page rejected_page : Page

-- A conflict has a page; any other error is raised.
abbrev pub page_of : Page → Response Status → Response Page
page_of page (ok status) = ok page
page_of page (error conflict) = ok already_actioned
page_of page (error e) = error e

module _ (mongo : Collection GraphRun) (outlet : Outlet) where
  unfoldable pub callback_approve :
      String → String → Container mongo → Response Status × Container mongo
  unfolding do_approve
  callback_approve decided_at run_id c = do_approve mongo outlet link_approver decided_at run_id c

  -- The reason is null where the body has none.
  unfoldable pub callback_reject :
      Value → String → String → Container mongo → Response Status × Container mongo
  unfolding do_reject
  callback_reject reason decided_at run_id c =
      do_reject mongo outlet reason link_approver decided_at run_id c

  unfoldable pub callback_approve_get :
      String → String → Container mongo → Response Page × Container mongo
  unfolding callback_approve
  callback_approve_get decided_at run_id c =
      let (r, d) = callback_approve decided_at run_id c in (page_of approved_page r, d)

  unfoldable pub callback_reject_get :
      String → String → Container mongo → Response Page × Container mongo
  unfolding callback_reject
  callback_reject_get decided_at run_id c =
      let (r, d) = callback_reject null decided_at run_id c in (page_of rejected_page r, d)
