-- ===== src/Request/Tests.antt =====
-- The request data at a concrete request.
use php_apm.Common.{◌&&◌, not, true, false, ◌≡◌, refl, arith}
use php_apm.Fixture.{env, globals}
use php_apm.Request.{extracted}
use php_apm.Globals.{Settings}
use php_apm.Request.Extract.{IsSound, extracted-IsSound, extracted_private}

empty_IsSound : IsSound globals.request_data
empty_IsSound = ground arith

extracted-IsSound_example :
    IsSound (extracted env globals).request_data
    × ((extracted env globals).request_data.initialized ≡ true)
extracted-IsSound_example = extracted-IsSound env globals empty_IsSound

extracted_private_example :
    ((extracted env globals).request_data.ip.found && not globals.settings.store_ip ≡ false)
    × ((extracted env globals).request_data.cookies_found && not globals.settings.store_cookies
        ≡ false)
    × ((extracted env globals).request_data.post_vars_found && not globals.settings.store_post
        ≡ false)
    × ((s : Settings)
        → (extracted env (record (extracted env globals) { settings = s })).request_data
          ≡ (extracted env globals).request_data)
extracted_private_example = extracted_private env globals refl
