-- ===== src/Api/Routes/Requests.antt =====
-- How a POST of /sponsorship/request is answered, step by step.
pub mod Refusals
pub mod Answers
use arcpass.Prelude.{Bool, Option, List, ◌&&◌}
use arcpass.Store.{Database}
use arcpass.Api.Actions.{ApiStore}
use arcpass.Api.Responses.{Violation}
use arcpass.Api.RateLimits.{RateConfig}
use arcpass.Api.Replay.{Request}
use arcpass.Api.Routes.{Headers, Platform, PostReply}
use arcpass.Api.Routes.Requests.Answers
use arcpass.Api.Routes.Requests.Answers.{HooksPass}

module _ (is_production : Bool) (config : RateConfig) (platform : Platform)
    (validate : Request → Option (List Violation)) (request : Request) (headers : Headers)
    (s : ApiStore) where
  abbrev Answered : Database → PostReply × ApiStore → Type 0
  Answered = Answers.Answered config platform validate request headers s

  abbrev Passed : ApiStore → Type 0
  Passed = HooksPass config platform validate request headers s
