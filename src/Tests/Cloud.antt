-- ===== src/Tests/Cloud.antt =====
-- The frontend's client against one storage node, over a network that loses a request and an answer.
use ncloud.Common.{◌==◌, none, true, ltb, if◌then◌else◌}
use ncloud.Kv.{IsLawful}
use ncloud.Kv.Cloud.{Weather, lost, unanswered, delivered}
use ncloud.Kv.Cloud.Lawful.{cloud, cloud-IsLawful}
use ncloud.Tests.Server.{env}

-- Of the requests, the first is lost, and the answer to the second.
abbrev weather : Weather
weather = record {
  connects = λ k node. true;
  fate = λ k node.
      if node.port == 5000
      then (if ltb k 2 then lost else if ltb k 4 then unanswered else delivered)
      else lost;
  env = λ k. env;
  coordinator = λ k bytes. none;
}

cloud-IsLawful_example : IsLawful (cloud weather)
cloud-IsLawful_example = cloud-IsLawful weather
