-- ===== src/Http/Patching.antt =====
-- The handler that changes the settings of a queue (app/httpinterface_v1.go): what Riak holds after
-- it, setting by setting.
use dynamiq.Prelude.{
  Option, none, some, List, [], ◌∷◌, String, Bool, true, false, str_eq, if◌then◌else◌, ◌≡◌, refl,
  ap, ◌∙◌, subst, eq_iff, Bool-cases, Option-cases, inl, inr,
}
use dynamiq.Prelude.Effects.{Outcome, ok}
use dynamiq.Riak.{StoresMaps}
use dynamiq.App.{Env, App}
use dynamiq.Strconv.{itoa, format_bool}
use dynamiq.Settings.{
  configuration_bucket, queue_config_record_name, set_queue_setting, store_setting, is_not_found,
  visibility_timeout, min_partitions, max_partition_age, compressed_messages,
  set_visibility_timeout, set_min_partitions, set_max_partition_age, set_compressed_messages,
}
use dynamiq.Settings.Stored.{store_setting-ok}
use dynamiq.Http.Response.{ConfigRequest, Response, json, plain_text}
use dynamiq.Http.Handlers.{Handler, answers, patch, handle_patch_queue}
use mathlib.Core.Option

-- A value, or what was there before.
abbrev pub or_before : Option String → Option String → Option String
or_before none before = before
or_before (some value) before = some value

-- A register after one of them was changed.
abbrev changed : String → String → Option String → Option String → Option String
changed param name value before = if str_eq param name then or_before value before else before

module _ (env : Env) where
  open env use {riak, floats}

  abbrev pub the_ok : List (Response env)
  the_ok = json 200 (plain_text "ok") ∷ []

  -- The setting of a queue in the map that Riak holds.
  abbrev pub register_of : String → App env → String → Option String
  register_of queue app name =
      riak.fetch_register
        (riak.fetch_map (riak.new_bucket_type "maps" configuration_bucket app.server).0
          (queue_config_record_name queue) app.server).0
        name

  -- What a request says of a setting.
  abbrev pub requested : ConfigRequest floats → String → Option String
  requested request name =
      if str_eq visibility_timeout name
      then Option.map floats.format_float request.visibility_timeout
      else if str_eq min_partitions name
      then Option.map itoa request.min_partitions
      else if str_eq max_partition_age name
      then Option.map floats.format_float request.max_partition_age
      else if str_eq compressed_messages name
      then Option.map format_bool request.compressed_messages
      else none

  -- The five changes one after the other.
  abbrev in_order : ConfigRequest floats → Option String → String → Option String
  in_order request before name =
      changed compressed_messages name (Option.map format_bool request.compressed_messages) (
        changed max_partition_age name (Option.map floats.format_float request.max_partition_age) (
          changed min_partitions name (Option.map itoa request.min_partitions) (
            changed min_partitions name (Option.map itoa request.min_partitions) (
              changed visibility_timeout name
                (Option.map floats.format_float request.visibility_timeout) before))))

  or_before_twice : (a b : Option String) → or_before a (or_before a b) ≡ or_before a b
  or_before_twice none b = refl
  or_before_twice (some v) b = refl

  in_order-requested :
      (request : ConfigRequest floats) (before : Option String) (name : String)
      → in_order request before name ≡ or_before (requested request name) before
  in_order-requested request before name = elim (Bool-cases (str_eq visibility_timeout name)) [
    | inl e ↦ at visibility_timeout e refl
    | inr not_timeout ↦ elim (Bool-cases (str_eq min_partitions name)) [
      | inl e ↦
          at min_partitions e (or_before_twice (Option.map itoa request.min_partitions) before)
      | inr not_min ↦ elim (Bool-cases (str_eq max_partition_age name)) [
        | inl e ↦ at max_partition_age e refl
        | inr not_age ↦ elim (Bool-cases (str_eq compressed_messages name)) [
          | inl e ↦ at compressed_messages e refl
          | inr other ↦ rw (not_timeout, not_min, not_age, other) refl
        ]
      ]
    ]
  ]
    where
      at :
          (setting : String)
          → str_eq setting name ≡ true
          → in_order request before setting ≡ or_before (requested request setting) before
          → in_order request before name ≡ or_before (requested request name) before
      at setting e =
          subst (λ n. in_order request before n ≡ or_before (requested request n) before)
            ((eq_iff setting name).0 e)

  set_queue_setting-answer :
      (param queue value : String) (app : App env)
      → (err : Option String) × ((set_queue_setting env param queue value app).0 ≡ ok err)
  unfolding set_queue_setting store_setting
  set_queue_setting-answer param queue value app =
      let bucket = (riak.new_bucket_type "maps" configuration_bucket app.server).0 in
      let (obj, found) = riak.fetch_map bucket (queue_config_record_name queue) app.server in
      elim (Bool-cases (is_not_found env found)) [
        | inl e ↦ (found, rw e refl)
        | inr e ↦ ((riak.store_map (riak.set_register obj param value) app.server).0.1, rw e refl)
      ]

  module _ (stores : StoresMaps riak) (queue : String) where
    register_of-set_queue_setting :
        (param value name : String) (app : App env)
        → (set_queue_setting env param queue value app).0 ≡ ok none
        → register_of queue (set_queue_setting env param queue value app).1 name
          ≡ (if str_eq param name then some value else register_of queue app name)
    unfolding set_queue_setting
    register_of-set_queue_setting param value name app h =
        let bucket = riak.new_bucket_type "maps" configuration_bucket app.server in
        let key = queue_config_record_name queue in
        let obj = riak.fetch_map bucket.0 key app.server in
        let update = riak.set_register obj.0 param value in
        let (_, stored, after) = store_setting-ok env param value obj.0 obj.1 app h in
        let read = stores.register_stored bucket.0 key param value name app.server stored in
        rw (after, register_of, stores.bucket_kept "maps" configuration_bucket update app.server)
          read

    -- What follows one setting, where the whole answer is that all went well.
    record Patched (param : String) (value : Option String) (next : Handler env) (app : App env)
        (r : Outcome (List (Response env)) × App env) : Type 0 where
      after : App env
      goes_on : r ≡ next after
      still : (next after).0 ≡ ok the_ok
      registers :
          (name : String)
          → register_of queue after name ≡ changed param name value (register_of queue app name)

    same_branches : {A : Type 0} (b : Bool) (a : A) → a ≡ (if b then a else a)
    same_branches true a = refl
    same_branches false a = refl

    patch-Patched :
        {A : Type 0} (param : String) (format : A → String) (value : Option A) (next : Handler env)
        (app : App env)
        → (patch env value (λ v. set_queue_setting env param queue (format v)) next app).0
          ≡ ok the_ok
        → Patched param
            (Option.map format value)
            next
            app
            (patch env value (λ v. set_queue_setting env param queue (format v)) next app)
    unfolding patch
    patch-Patched param format none next app h = record {
      after = app;
      goes_on = refl;
      still = h;
      registers = λ name. same_branches (str_eq param name) (register_of queue app name);
    }
    patch-Patched param format (some v) next app h =
        let (err, answer) = set_queue_setting-answer param queue (format v) app in
        elim (Option-cases err) [
          | inl e ↦
              let stored = answer ∙ ap ok e in
              record {
                after = (set_queue_setting env param queue (format v) app).1;
                goes_on = rw stored refl;
                still = rw stored at h;
                registers = λ name. register_of-set_queue_setting param (format v) name app stored;
              }
          | inr (text', e) ↦ let contra = rw (answer, e) at h in cc
        ]

    -- On a cluster that stores maps as documented, where the PATCH of a queue answers that all went
    -- well, each register of the queue's settings in Riak is then the requested value for the
    -- visibility timeout, the minimum, the maximum age and the compression, where the request has
    -- it, and what it was before for all others, the maximum of the partitions among them.
    pub handle_patch_queue-requested :
        (request : ConfigRequest floats) (app : App env) (name : String)
        → let (r, app') = handle_patch_queue env queue request app in
          r ≡ ok the_ok
          → register_of queue app' name
            ≡ or_before (requested request name) (register_of queue app name)
    unfolding handle_patch_queue set_visibility_timeout set_min_partitions set_max_partition_age
        set_compressed_messages
    handle_patch_queue-requested request app name h =
        let timeout =
          patch-Patched visibility_timeout floats.format_float request.visibility_timeout _ app h in
        let min =
          patch-Patched min_partitions itoa request.min_partitions _ timeout.after timeout.still in
        let again =
          patch-Patched min_partitions itoa request.min_partitions _ min.after min.still in
        let age =
          patch-Patched max_partition_age floats.format_float request.max_partition_age _
            again.after again.still in
        let compressed =
          patch-Patched compressed_messages format_bool request.compressed_messages
            (answers env 200 (plain_text "ok")) age.after age.still in
        let ran =
          timeout.goes_on ∙ min.goes_on ∙ again.goes_on ∙ age.goes_on ∙ compressed.goes_on in
        ap (λ r. register_of queue r.1 name) ran
        ∙ compressed.registers name
        ∙ ap (changed compressed_messages name (Option.map format_bool request.compressed_messages))
            (age.registers name
              ∙ ap
                  (changed max_partition_age name
                    (Option.map floats.format_float request.max_partition_age))
                  (again.registers name
                    ∙ ap set_min (min.registers name ∙ ap set_min (timeout.registers name))))
        ∙ in_order-requested request (register_of queue app name) name
      where
        set_min : Option String → Option String
        set_min = changed min_partitions name (Option.map itoa request.min_partitions)
