-- ===== src/Task/Service/Tests.antt =====
-- An item that is added twice.
use pi_roaster.Base.{some, none, true, [], ◌∷◌, List}
use pi_roaster.Task.Reading.{TaskEvent, raw_item_added}
use pi_roaster.Task.Service.{Reading}

abbrev reading : Reading
reading = record {
  show = λ n. "some";
  inputs = record {
    truth_facts = [];
    report = record { passed = true; missing_evidence = [] };
    usage = record { ratio = none; enabled = true; threshold = 80; hard_limit = 90 };
  };
  recorded = 5;
  now = 6;
  status_recorded = 7;
}

abbrev one_item : List TaskEvent
one_item = (record { payload = raw_item_added (some "i1") (some "read") none; timestamp = 1 }) ∷ []
