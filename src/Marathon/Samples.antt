-- ===== src/Marathon/Samples.antt =====
-- The table `data` of smc-base-server/src/main/webapp/marathon/js/marathon.js: three applications, as
-- the service describes them.
use base_service.Base.{ℕ, List, [], ◌∷◌}
use base_service.Text.{Text, codes}
use base_service.Marathon.App.{Item, tenths}

-- An application, with its environment and its port.
pub record Sample : Type 0 where
  pub item : Item
  pub env : List (Text × Text)
  pub port : ℕ

abbrev pub rails_test : List Text
rails_test = codes "http://datacentercomputer.s3.amazonaws.com/rails_test_app_1.9.tgz" ∷ []

abbrev pub sinatra : Sample
sinatra = record {
  item = record {
    id = codes "sinatra";
    cmd = codes "cd sinatra_test && /usr/bin/ruby hi.rb";
    mem = tenths 100;
    cpus = tenths 1;
    instances = tenths 50;
    uris = codes "http://localhost:8888/sinatra_test.tgz" ∷ [];
  };
  env = [];
  port = 13195;
}

abbrev pub monorail : Sample
monorail = record {
  item = record {
    id = codes "Monorail";
    cmd = codes "cd rails_test && bundle exec rails server --port $PORT";
    mem = tenths 4000;
    cpus = tenths 10;
    instances = tenths 200;
    uris = rails_test;
  };
  env = (codes "RAILS_ENV", codes "production") ∷ [];
  port = 13196;
}

abbrev pub resque : Sample
resque = record {
  item = record {
    id = codes "Resque";
    cmd = codes "cd rails_test && bundle exec rake resque:work";
    mem = tenths 4000;
    cpus = tenths 10;
    instances = tenths 80;
    uris = rails_test;
  };
  env =
      (codes "RAILS_ENV", codes "production")
      ∷ (codes "QUEUES", codes "*")
      ∷ (codes "VERBOSE", codes "1")
      ∷ [];
  port = 14497;
}

abbrev pub data_table : List Sample
data_table = sinatra ∷ monorail ∷ resque ∷ []
